-- ===== src/FileTable/Count.antt =====
-- file.c: the counts against the references that exist.
use mathlib.Core.Path.{subst}
use operating_systems_assign.Kernel.Ends.{Safe, Safe-done, panicked, returns}
use operating_systems_assign.Base.{
  arith, if◌then◌else◌, some, suc, zero, ℕ, ◌+◌, ◌==◌, ◌≡◌, Bool-cases, Option, false, inl, inr,
  ltb, none, refl, true, ◌-◌,
}
use operating_systems_assign.Kernel.{done}
use operating_systems_assign.FileTable.{
  Files, Release, filealloc, fileclose, filedup, free_file, nothing, release_of, fd_none, nfile,
  put, take_file,
}

-- the references to files: how many descriptors hold each file
abbrev pub add : ℕ → (ℕ → ℕ) → ℕ → ℕ
add f held x = if x == f then held x + 1 else held x

-- `filealloc`, `filedup` by one who holds the file, and `fileclose` by one who holds it
pub data Step : Files → (ℕ → ℕ) → Files → (ℕ → ℕ) → Type 0 where
  allocates :
      {t u : Files} {held : ℕ → ℕ} (f : ℕ) → filealloc t ≡ some (f, u) → Step t held u (add f held)
  dups :
      {t u : Files} (held : ℕ → ℕ) (f : ℕ)
      → filedup f t ≡ done tt u
      → Step t (add f held) u (add f (add f held))
  closes :
      {t u : Files} (held : ℕ → ℕ) (f : ℕ) (r : Release)
      → fileclose f t ≡ done r u
      → Step t (add f held) u held

pub data Reach : Files → (ℕ → ℕ) → Type 0 where
  starts : {t : Files} → ((f : ℕ) → (t f).ref ≡ 0) → Reach t (λ f. 0)
  steps : {t u : Files} {held after : ℕ → ℕ} → Reach t held → Step t held u after → Reach u after

abbrev Counts : Files → (ℕ → ℕ) → Type 0
Counts t held = (f : ℕ) → (t f).ref ≡ held f

-- what the search finds has no reference
abbrev IsFree : Files → Option ℕ → Type 0
IsFree t none = Unit
IsFree t (some g) = (t g).ref ≡ 0

free_file-IsFree : (t : Files) (m f : ℕ) → IsFree t (free_file t f m)
unfolding free_file
free_file-IsFree t zero f = tt
free_file-IsFree t (suc m) f = elim (Bool-cases ((t f).ref == 0)) [
  | inl e ↦ simp (e) (ground arith)
  | inr e ↦ simp (e) (free_file-IsFree t m (suc f))
]

abbrev Allocates : (ℕ → ℕ) → Option (ℕ × Files) → Type 0
Allocates held none = Unit
Allocates held (some (f, u)) = Counts u (add f held)

take_file-Allocates :
    (t : Files) (held : ℕ → ℕ) (r : Option ℕ)
    → Counts t held
    → IsFree t r
    → Allocates held (take_file t r)
take_file-Allocates t held none h e = tt
take_file-Allocates t held (some g) h e = λ f. let u = h f in let v = h g in ground arith

filealloc-Allocates : (t : Files) (held : ℕ → ℕ) → Counts t held → Allocates held (filealloc t)
unfolding filealloc
filealloc-Allocates t held h =
    take_file-Allocates t held (free_file t 0 nfile) h (free_file-IsFree t nfile 0)

filedup-Counts :
    (t : Files) (held : ℕ → ℕ) (f : ℕ)
    → Counts t held
    → Safe (λ _ u. Counts u (add f held)) (filedup f t)
unfolding filedup
filedup-Counts t held f h = elim (Bool-cases ((t f).ref == 0)) [
  | inl e ↦ simp (e) panicked
  | inr e ↦ simp (e) (returns (λ g. let u = h g in let v = h f in ground arith))
]

fileclose-Counts :
    (t : Files) (held : ℕ → ℕ) (f : ℕ)
    → Counts t (add f held)
    → Safe (λ _ u. Counts u held) (fileclose f t)
unfolding fileclose
fileclose-Counts t held f h =
    let here = h f in
    elim (Bool-cases (ltb 0 ((t f).ref - 1))) [
      | inl k ↦
          (let z : ((t f).ref == 0) ≡ false = ground arith in
            simp (z, k) (returns (λ g. let u = h g in ground arith)))
      | inr k ↦
          (let z : ((t f).ref == 0) ≡ false = ground arith in
            simp (z, k) (returns (λ g. let u = h g in ground arith)))
    ]

Step-count :
    {t u : Files} {held after : ℕ → ℕ} → Counts t held → Step t held u after → Counts u after
Step-count {t} {held} h (allocates f e) = subst (Allocates held) e (filealloc-Allocates t held h)
Step-count {t} h (dups held f e) = Safe-done (filedup-Counts t (add f held) f h) e
Step-count {t} h (closes held f r e) = Safe-done (fileclose-Counts t held f h) e

-- In a reachable table the count of each file is the number of descriptors that hold it.
pub Reach-count : {t : Files} {held : ℕ → ℕ} → Reach t held → (f : ℕ) → (t f).ref ≡ held f
Reach-count (starts h) f = h f
Reach-count (steps r s) f = Step-count (Reach-count r) s f

-- A process that holds a file closes it without a panic; what the file stands for is released
-- exactly by the last one who holds it.
pub fileclose-last :
    (t : Files) (held : ℕ → ℕ) (f : ℕ)
    → Reach t (add f held)
    → (u : Files) × (fileclose f t
        ≡ done (if held f == 0 then release_of (t f).type (t f) else nothing) u)
unfolding fileclose
fileclose-last t held f r =
    let here = Reach-count r f in
    let z : ((t f).ref == 0) ≡ false = ground arith in
    elim (Bool-cases (held f == 0)) [
      | inl e ↦
          (let k : ltb 0 ((t f).ref - 1) ≡ false = ground arith in
            (put t f (record (t f) { type = fd_none; ref = 0 }), simp (z, k, e) refl))
      | inr e ↦
          (let k : ltb 0 ((t f).ref - 1) ≡ true = ground arith in
            (put t f (record (t f) { ref = (t f).ref - 1 }), simp (z, k, e) refl))
    ]

-- ===== src/Fs/File/Read.antt =====
-- fs.c: `readi` and the contents of a file.
use operating_systems_assign.Base.Int.{pos}
use operating_systems_assign.Fs.File.Bmap.{bmap-there}
use operating_systems_assign.Base.{
  ℕ, ◌*◌, ◌++◌, ◌+◌, ◌/◌, ◌<◌, ◌≡◌, ◌≢◌, ◌≤◌, List, ap, arith, false, inl, inr, refl, suc, sym,
  zero, ◌%◌, ◌-◌, ◌==◌, ◌∙◌, if◌then◌else◌, ltb, ◌||◌, ◌∷◌, min, get_or,
}
use operating_systems_assign.CString.{array, rest}
use operating_systems_assign.Kernel.{done, Run, and_then}
use operating_systems_assign.Fs.{Super, bsize, maxfile, uint}
use operating_systems_assign.Fs.File.{View, read_from, Devsw, readi, t_dev}
use operating_systems_assign.Fs.File.Mapping.{addr_of, byte_at, byte_at-there, same_or_not}

-- The blocks of the file are there as far as its size goes.
abbrev pub IsCovered : View → Type 0
IsCovered s =
    (s.ip.size ≤ maxfile * bsize) × ((off : ℕ) → off < s.ip.size → addr_of s (off / bsize) ≢ 0)

pub same_cons : {x y : ℕ} {xs ys : List ℕ} → x ≡ y → xs ≡ ys → x ∷ xs ≡ y ∷ ys
same_cons e es = simp (e, es) refl

array-append :
    (k l m : ℕ) (f g h : ℕ → ℕ)
    → k + l ≡ m
    → ((i : ℕ) → i < k → f i ≡ h i)
    → ((i : ℕ) → i < l → g i ≡ h (k + i))
    → array k f ++ array l g ≡ array m h
array-append zero zero zero f g h e a b = refl
array-append zero zero (suc m) f g h e a b = absurd (omega arith)
array-append zero (suc l) zero f g h e a b = absurd (omega arith)
array-append zero (suc l) (suc m) f g h e a b = same_cons (b 0 (omega arith)) (
    array-append zero l m f (rest g) (rest h) (omega arith) (λ i n. absurd (omega arith))
      (λ i n. b (suc i) (omega arith) ∙ ap h (omega arith)))
array-append (suc k) l zero f g h e a b = absurd (omega arith)
array-append (suc k) l (suc m) f g h e a b = same_cons (a 0 (omega arith)) (
    array-append k l m (rest f) g (rest h) (omega arith) (λ i n. a (suc i) (omega arith))
      (λ i n. b i n ∙ ap h (omega arith)))

-- one round of the loop reads this many bytes
abbrev pub chunk : ℕ → ℕ → ℕ
chunk off n = min n (bsize - off % bsize)

pub chunk-bounds :
    (off n : ℕ)
    → n ≢ 0
    → (1 ≤ chunk off n) × (chunk off n ≤ n) × (off % bsize + chunk off n ≤ bsize)
chunk-bounds off n ne = ground arith

chunk-bytes :
    (s : View) (off k i : ℕ)
    → i < k
    → off % bsize + k ≤ bsize
    → addr_of s (off / bsize) ≢ 0
    → s.disk (addr_of s (off / bsize)) (off % bsize + i) ≡ byte_at s (off + i)
chunk-bytes s off k i l h ne =
    let d : (off + i) / bsize ≡ off / bsize = omega arith in
    let r : (off + i) % bsize ≡ off % bsize + i = omega arith in
    sym (
      byte_at-there s (off + i) (λ z. ne (sym (ap (addr_of s) d) ∙ z))
      ∙ ap (λ (x : ℕ). s.disk (addr_of s x) ((off + i) % bsize)) d
      ∙ ap (s.disk (addr_of s (off / bsize))) r)

read_from-bytes :
    (sb : Super) (s : View) (m off n : ℕ)
    → n < m
    → off + n ≤ maxfile * bsize
    → ((x : ℕ) → off ≤ x → x < off + n → addr_of s (x / bsize) ≢ 0)
    → read_from sb m off n s ≡ done (array n (λ i. byte_at s (off + i))) s
unfolding read_from
read_from-bytes sb s zero off n l h c = absurd (omega arith)
read_from-bytes sb s (suc m) off n l h c = elim (same_or_not n 0) [
  | inl z ↦ simp (z) refl
  | inr ne ↦
      let o : (n == 0) ≡ false = ground arith in
      let k = chunk off n in
      let (one, le, fit) = chunk-bounds off n ne in
      let here = c off (omega arith) (omega arith) in
      let b = bmap-there sb (off / bsize) s (omega arith) here in
      let ih =
        read_from-bytes sb s m (off + k) (n - k) (omega arith) (omega arith)
          (λ x lo hi. c x (omega arith) (omega arith)) in
      let e : k + (n - k) ≡ n = omega arith in
      let join =
        array-append k (n - k) n (λ i. s.disk (addr_of s (off / bsize)) (off % bsize + i))
          (λ i. byte_at s (off + k + i)) (λ i. byte_at s (off + i)) e
          (λ i m. chunk-bytes s off k i m fit here) (λ i m. ap (byte_at s) (omega arith)) in
      let first = array k (λ i. s.disk (addr_of s (off / bsize)) (off % bsize + i)) in
      simp (o, b)
        (ap (λ (r : Run View (List ℕ)). and_then r (λ bytes u. done (first ++ bytes) u)) ih
          ∙ ap (λ (bytes : List ℕ). done bytes s) join)
]

-- A file that is no device and has no holes is read as it is: the bytes from an offset within it on, no
-- more of them than are asked for and no more than there are. Nothing changes.
pub readi-contents :
    (sb : Super) (dev : Devsw) (s : View) (off n : ℕ)
    → s.ip.type ≢ t_dev
    → IsCovered s
    → off ≤ s.ip.size
    → off + n < uint
    → readi sb dev off n s
      ≡ done
          (
            pos (min n (s.ip.size - off)),
            array (min n (s.ip.size - off)) (λ i. byte_at s (off + i)),
          )
          s
unfolding readi
readi-contents sb dev s off n file (max, c) l w =
    let k = min n (s.ip.size - off) in
    let t : (s.ip.type == t_dev) ≡ false = ground arith in
    let in_file : (ltb s.ip.size off || ltb ((off + n) % uint) off) ≡ false = ground arith in
    let q : (if ltb s.ip.size ((off + n) % uint) then s.ip.size - off else n) ≡ k = ground arith in
    let r =
      read_from-bytes sb s (suc k) off k (omega arith) (ground arith)
        (λ x lo hi. c x (ground arith)) in
    simp (t, in_file, q)
      (ap (λ (x : Run View (List ℕ)). and_then x (λ bytes u. done (pos k, bytes) u)) r)

pub get_or-array : (n : ℕ) (f : ℕ → ℕ) (i : ℕ) → i < n → get_or (array n f) i 0 ≡ f i
get_or-array zero f i l = absurd (omega arith)
get_or-array (suc n) f zero l = refl
get_or-array (suc n) f (suc i) l = get_or-array n (rest f) i (omega arith)

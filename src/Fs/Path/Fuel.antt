-- ===== src/Fs/Path/Fuel.antt =====
-- fs.c: how many rounds the loop of `namex` makes.
use operating_systems_assign.Kernel.{Cmd, and_then}
use operating_systems_assign.Fs.Inode.{Icache, ilock}
use operating_systems_assign.Fs.Path.{walk_path, step}
use operating_systems_assign.Fs.{Super}
use operating_systems_assign.Base.{
  Bool-cases, List, [], arith, false, inl, inr, length, some, ℕ, ◌<◌, ◌==◌, ◌∷◌, ◌≡◌, ◌≤◌, Bool,
  Option, ap, fun_ext, get_or, none, refl, suc, sym, true, zero, ◌∙◌, ◌⊎◌,
}
use operating_systems_assign.PathName.{element_end, skip_slashes, skipelem}
use operating_systems_assign.Fs.File.{Devsw}

length-skip_slashes : (path : List ℕ) → length (skip_slashes path) ≤ length path
unfolding skip_slashes
length-skip_slashes [] = omega arith
length-skip_slashes (c ∷ path) =
    let ih = length-skip_slashes path in
    elim (Bool-cases (c == 47)) [ inl e ↦ simp (e) (omega arith) | inr e ↦ simp (e) (omega arith) ]

length-element_end : (path : List ℕ) → length (element_end path).1 ≤ length path
unfolding element_end
length-element_end [] = omega arith
length-element_end (c ∷ path) =
    let ih = length-element_end path in
    elim (Bool-cases (c == 47)) [ inl e ↦ simp (e) (omega arith) | inr e ↦ simp (e) (omega arith) ]

-- the path without its slashes in front is empty, or it starts with another character
no_slash : (path : List ℕ) (c : ℕ) (p : List ℕ) → skip_slashes path ≡ c ∷ p → (c == 47) ≡ false
unfolding skip_slashes
no_slash [] c p e = absurd (ground (arith, e))
no_slash (a ∷ path) c p e = elim (Bool-cases (a == 47)) [
  | inl s ↦ no_slash path c p (ground (arith, e, s))
  | inr o ↦
      let h : skip_slashes (a ∷ path) ≡ a ∷ path = simp (o) refl in
      let q : c ≡ a = ap (λ (l : List ℕ). get_or l 0 0) (sym e ∙ h) in ground (arith, q, o)
]

element_end-shorter :
    (c : ℕ) (p : List ℕ) → (c == 47) ≡ false → length (element_end (c ∷ p)).1 ≤ length p
unfolding element_end
element_end-shorter c p o = let l = length-element_end p in simp (o) l

first_char : (xs : List ℕ) → (xs ≡ []) ⊎ ((c : ℕ) × (p : List ℕ) × (xs ≡ c ∷ p))
first_char [] = inl refl
first_char (c ∷ p) = inr (c, p, refl)

abbrev rest_length : Option (List ℕ × List ℕ) → ℕ
rest_length none = 0
rest_length (some x) = length x.1

abbrev is_some : Option (List ℕ × List ℕ) → Bool
is_some none = false
is_some (some x) = true

-- `skipelem` leaves less of the path.
pub length-skipelem :
    (path element later : List ℕ)
    → skipelem path ≡ some (element, later)
    → length later < length path
unfolding skipelem
length-skipelem path element later e = elim (first_char (skip_slashes path)) [
  | inl z ↦
      let h : skipelem path ≡ none = simp (z) refl in
      let b : true ≡ false = ap is_some (sym e ∙ h) in absurd (ground (arith, b))
  | inr (c, p, q) ↦
      let h : rest_length (skipelem path) ≡ length (skip_slashes (element_end (c ∷ p)).1) =
        simp (q) refl in
      let r : length later ≡ length (skip_slashes (element_end (c ∷ p)).1) =
        ap rest_length (sym e) ∙ h in
      let a = length-skip_slashes (element_end (c ∷ p)).1 in
      let b = element_end-shorter c p (no_slash path c p q) in
      let d = length-skip_slashes path in
      let n : length (skip_slashes path) ≡ suc (length p) = ap length q in omega arith
]

skipelem-cases :
    (path : List ℕ)
    → (skipelem path ≡ none)
      ⊎ ((element : List ℕ) × (later : List ℕ) × (skipelem path ≡ some (element, later)))
skipelem-cases path = option_cases (skipelem path)
  where
    option_cases :
        (o : Option (List ℕ × List ℕ))
        → (o ≡ none) ⊎ ((x : List ℕ) × (y : List ℕ) × (o ≡ some (x, y)))
    option_cases none = inl refl
    option_cases (some (x, y)) = inr (x, y, refl)

module _ (pid uid : ℕ) (sb : Super) (dev : Devsw) (parent : Bool) where
  -- The loop of `namex` ends within as many rounds as the path has characters, and one more: any
  -- larger number gives the same.
  pub walk_path-enough :
      (m n : ℕ) (name path : List ℕ) (ip : ℕ) (s : Icache)
      → length path < m
      → length path < n
      → walk_path pid uid sb dev parent m name path ip s
        ≡ walk_path pid uid sb dev parent n name path ip s
  unfolding walk_path
  walk_path-enough zero n name path ip s l h = absurd (omega arith)
  walk_path-enough (suc m) zero name path ip s l h = absurd (omega arith)
  walk_path-enough (suc m) (suc n) name path ip s l h = elim (skipelem-cases path) [
    | inl e ↦ simp (e) refl
    | inr (element, later, e) ↦
        let shorter = length-skipelem path element later e in
        let same : walk_path pid uid sb dev parent m element later
            ≡ walk_path pid uid sb dev parent n element later =
          fun_ext (λ i.
            fun_ext (λ t. walk_path-enough m n element later i t (omega arith) (omega arith))) in
        simp (e) (
          ap
            (λ (w : ℕ → Cmd Icache (Option (ℕ × List ℕ))).
              and_then (ilock pid sb (some ip) s)
                (λ _ t. step pid uid sb dev parent w ip element later t))
            same)
  ]

-- ===== src/PathName.antt =====
-- fs.c: the elements of a path name. A path is the list of its characters before the NUL.
use operating_systems_assign.Base.{
  Bool-cases, List, Option, [], ap, if◌then◌else◌, inl, inr, none, refl, some, take, ℕ, ◌++◌, ◌==◌,
  ◌∷◌, ◌≡◌,
}

abbrev pub dirsiz : ℕ
dirsiz = 14

unfoldable pub skip_slashes : List ℕ → List ℕ
skip_slashes [] = []
skip_slashes (c ∷ path) = let later = skip_slashes path in if c == 47 then later else c ∷ path

-- the characters up to the next slash, and what follows them
unfoldable pub element_end : List ℕ → List ℕ × List ℕ
element_end [] = ([], [])
element_end (c ∷ path) =
    let later = element_end path in if c == 47 then ([], c ∷ path) else (c ∷ later.0, later.1)

-- The name, cut off at DIRSIZ characters, and the rest of the path. A shorter name ends in a NUL in
-- its buffer.
unfoldable pub skipelem : List ℕ → Option (List ℕ × List ℕ)
unfolding skip_slashes element_end
skipelem path = element_of (skip_slashes path)
  where
    element_of : List ℕ → Option (List ℕ × List ℕ)
    element_of [] = none
    element_of (c ∷ p) = let e = element_end (c ∷ p) in some (take dirsiz e.0, skip_slashes e.1)

-- The name and what follows it are parts of the path, in this order.
pub element_end-append : (path : List ℕ) → (element_end path).0 ++ (element_end path).1 ≡ path
unfolding element_end
element_end-append [] = refl
element_end-append (c ∷ path) = elim (Bool-cases (c == 47)) [
  | inl e ↦ simp (e) refl
  | inr e ↦ simp (e) (ap (λ l. c ∷ l) (element_end-append path))
]

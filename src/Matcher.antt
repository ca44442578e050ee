-- ===== src/Matcher.antt =====
-- grep.c: the matcher of regular expressions. A string is the list of its characters before the NUL.
use operating_systems_assign.Base.{
  Bool, List, [], arith, false, if◌then◌else◌, refl, true, ℕ, ◌&&◌, ◌++◌, ◌==◌, ◌||◌, ◌∷◌, ◌≡◌,
}

abbrev is_empty : List ℕ → Bool
is_empty [] = true
is_empty (t ∷ text) = false

-- the loop of `matchstar`, for the rest `m` of the expression
unfoldable pub matchstar : (List ℕ → Bool) → ℕ → List ℕ → Bool
matchstar m c [] = m []
matchstar m c (t ∷ text) = m (t ∷ text) || (t == c || c == 46) && matchstar m c text

-- one character, or any for a dot, and the rest
abbrev pub match_one : ℕ → (List ℕ → Bool) → List ℕ → Bool
match_one c m [] = false
match_one c m (t ∷ text) = (c == 46 || c == t) && m text

unfoldable pub matchhere : List ℕ → List ℕ → Bool
unfolding matchstar
matchhere [] text = true
matchhere (c ∷ []) text = if c == 36 then is_empty text else match_one c (λ _. true) text
matchhere (c ∷ d ∷ re) text =
    let star = matchstar (matchhere re) c text in
    let one = match_one c (matchhere (d ∷ re)) text in if d == 42 then star else one

-- the loop of `match`
unfoldable pub match_from : (List ℕ → Bool) → List ℕ → Bool
match_from m [] = m []
match_from m (t ∷ text) = m (t ∷ text) || match_from m text

unfoldable pub match_re : List ℕ → List ℕ → Bool
unfolding matchhere match_from
match_re [] text = match_from (matchhere []) text
match_re (c ∷ re) text = if c == 94 then matchhere re text else match_from (matchhere (c ∷ re)) text

abbrev pub AllMatch : ℕ → List ℕ → Type 0
AllMatch c [] = Unit
AllMatch c (t ∷ ts) = ((t == c || c == 46) ≡ true) × AllMatch c ts

-- `matchstar` succeeds for each text that is a run of characters that `c` stands for and a text that
-- the rest of the expression matches.
pub matchstar-run :
    (m : List ℕ → Bool) (c : ℕ) (run rest : List ℕ)
    → AllMatch c run
    → m rest ≡ true
    → matchstar m c (run ++ rest) ≡ true
unfolding matchstar
matchstar-run m c [] [] a h = h
matchstar-run m c [] (t ∷ rest) a h = simp (h) refl
matchstar-run m c (t ∷ run) rest (e, a) h = let ih = matchstar-run m c run rest a h in ground arith

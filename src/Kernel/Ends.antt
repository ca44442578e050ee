-- ===== src/Kernel/Ends.antt =====
-- Total correctness of a run: it returns, neither asleep nor in a panic, and the result and the
-- state satisfy a postcondition.
use mathlib.Core.Path.{subst}
use operating_systems_assign.Base.{◌≡◌}
use operating_systems_assign.Kernel.{Cmd, Run, and_then, done, panics, sleeps}

pub data Ends {S A : Type 0} (P : A → S → Type 0) : Run S A → Type 0 where
  ends : {a : A} {s : S} → P a s → Ends P (done a s)

module _ {S A : Type 0} {P : A → S → Type 0} where
  -- A routine that ends, and its continuation from each state that it may end in.
  pub Ends-bind :
      {B : Type 0} {Q : B → S → Type 0} {r : Run S A} {k : A → Cmd S B}
      → Ends P r
      → ((a : A) (s : S) → P a s → Ends Q (k a s))
      → Ends Q (and_then r k)
  Ends-bind (ends p) next = next _ _ p

  pub Ends-mono :
      {Q : A → S → Type 0} {r : Run S A} → Ends P r → ((a : A) (s : S) → P a s → Q a s) → Ends Q r
  Ends-mono (ends p) weaken = ends (weaken _ _ p)

-- the same by cases
abbrev Post : {S A : Type 0} → (A → S → Type 0) → Run S A → Type 0
Post P (done a s) = P a s
Post P sleeps = ⊥
Post P panics = ⊥

-- What is known of a run that returns `a` in `s`.
pub Ends-done :
    {S A : Type 0} {P : A → S → Type 0} {r : Run S A} {a : A} {s : S}
    → Ends P r
    → r ≡ done a s
    → P a s
Ends-done {P} (ends p) e = subst (Post P) e p

-- Partial correctness: if the run returns, its result and state satisfy the postcondition.
pub data Safe {S A : Type 0} (P : A → S → Type 0) : Run S A → Type 0 where
  returns : {a : A} {s : S} → P a s → Safe P (done a s)
  asleep : Safe P sleeps
  panicked : Safe P panics

module _ {S A B : Type 0} {P : A → S → Type 0} {Q : B → S → Type 0} where
  pub Safe-bind :
      {r : Run S A} {k : A → Cmd S B}
      → Safe P r
      → ((a : A) (s : S) → P a s → Safe Q (k a s))
      → Safe Q (and_then r k)
  Safe-bind (returns p) next = next _ _ p
  Safe-bind asleep next = asleep
  Safe-bind panicked next = panicked

-- the same by cases
abbrev SafePost : {S A : Type 0} → (A → S → Type 0) → Run S A → Type 0
SafePost P (done a s) = P a s
SafePost P sleeps = Unit
SafePost P panics = Unit

Safe-post : {S A : Type 0} {P : A → S → Type 0} {r : Run S A} → Safe P r → SafePost P r
Safe-post (returns p) = p
Safe-post asleep = tt
Safe-post panicked = tt

pub Safe-done :
    {S A : Type 0} {P : A → S → Type 0} {r : Run S A} {a : A} {s : S}
    → Safe P r
    → r ≡ done a s
    → P a s
Safe-done {P} h e = subst (SafePost P) e (Safe-post h)

-- ===== src/Kernel.antt =====
-- How a kernel routine of this model ends: it returns with the new state, it would go to sleep (or
-- spin) until another process or CPU acts, or it panics. `Cmd S` is a routine over the state `S`.
pub mod Ends
use operating_systems_assign.Base.{Bool, true, false}

pub data Run (S : Type 0) (A : Type 0) : Type 0 where
  done : A → S → Run S A
  sleeps : Run S A
  panics : Run S A

abbrev pub Cmd : Type 0 → Type 0 → Type 0
Cmd S A = S → Run S A

module _ {S A : Type 0} where
  abbrev pub pure : A → Cmd S A
  pure a s = done a s

  abbrev pub panic : Cmd S A
  panic s = panics

module _ {S : Type 0} where
  abbrev pub modify : (S → S) → Cmd S (Unit {0})
  modify f s = done tt (f s)

  abbrev pub get : Cmd S S
  get s = done s s

  -- `if(b) panic(…);`
  abbrev pub panic_if : Bool → Cmd S (Unit {0})
  panic_if true s = panics
  panic_if false s = done tt s

  -- `if(b) sleep(…);`, where the routine goes round its loop once it is awake
  abbrev pub sleep_if : Bool → Cmd S (Unit {0})
  sleep_if true s = sleeps
  sleep_if false s = done tt s

module _ {S A B : Type 0} where
  abbrev pub and_then : Run S A → (A → Cmd S B) → Run S B
  and_then (done a s) k = k a s
  and_then sleeps k = sleeps
  and_then panics k = panics

  infixl 5 ◌>>=◌
  abbrev pub ◌>>=◌ : Cmd S A → (A → Cmd S B) → Cmd S B
  m >>= k = λ s. and_then (m s) k

module _ {S B : Type 0} where
  infixl 5 ◌>>◌
  abbrev pub ◌>>◌ : Cmd S (Unit {0}) → Cmd S B → Cmd S B
  m >> n = m >>= λ _. n

-- ===== src/Proc/Steps.antt =====
-- proc.c: the routines that change the process table keep its invariant, whatever the other parts of
-- the kernel answer.
use operating_systems_assign.Base.{
  Bool-cases, Option, arith, inl, inr, none, refl, some, true, ℕ, ◌==◌, ◌≡◌,
}
use operating_systems_assign.Kernel.{Cmd, Run, and_then, done, panics, sleeps}
use operating_systems_assign.Kernel.Ends.{Safe, asleep, panicked, returns}
use operating_systems_assign.Proc.{
  Chan, Proc, ProcOps, Procs, find_from, is_runnable, nproc, update, with_ext,
}
use operating_systems_assign.Proc.Ops.{
  dispatch, kill, kill_found, sleep, sleep_end, wakeup, wakeup1, yield,
}
use operating_systems_assign.Proc.Inv.{Quiet, Quiet-TableInv, Quiet-update, TableInv, live}
use operating_systems_assign.Proc.Scan.{wakeup1-Quiet}

module _ {E : Type 0} where
  abbrev pub Good : Procs E → Type 0
  Good s = TableInv s.proc s.initproc

  -- a call of another part, and what follows it
  pub ext_bind :
      {A B : Type 0} {Q : B → Procs E → Type 0} (r : Run E A) (k : A → Cmd (Procs E) B)
      (s : Procs E)
      → ((a : A) (e : E) → Safe Q (k a (record s { ext = e })))
      → Safe Q (and_then (with_ext s r) k)
  ext_bind (done a e) k s h = h a e
  ext_bind sleeps k s h = asleep
  ext_bind panics k s h = panicked

  pub ext_last :
      {A : Type 0} {Q : A → Procs E → Type 0} (r : Run E A) (s : Procs E)
      → ((a : A) (e : E) → Q a (record s { ext = e }))
      → Safe Q (with_ext s r)
  ext_last (done a e) s h = returns (h a e)
  ext_last sleeps s h = asleep
  ext_last panics s h = panicked

  -- A quiet change of one entry keeps the invariant.
  pub Quiet-change :
      (s : Procs E) (i : ℕ) (p : Proc)
      → Good s
      → Quiet i (s.proc i) p
      → TableInv (update s.proc i p) s.initproc
  Quiet-change s i p v q =
      Quiet-TableInv s.proc (update s.proc i p) s.initproc v (Quiet-update s.proc i p q)

  pub kill-Good : (s : Procs E) (pid : ℕ) → Good s → Safe (λ _ t. Good t) (kill pid s)
  unfolding kill
  kill-Good s pid v = go (find_from (λ p. p.pid == pid) s.proc 0 nproc)
    where
      go : (o : Option ℕ) → Safe (λ _ t. Good t) (kill_found o s)
      go none = returns v
      go (some i) = returns (
          Quiet-change s i _ v (record {
            parent = refl;
            pid = refl;
            zombie = ground arith;
            settles = ground arith;
            lives = ground arith;
            used = ground arith;
            awaits = λ h. ground arith;
          }))

  pub wakeup-Good : (s : Procs E) (c : Chan) → Good s → Safe (λ _ t. Good t) (wakeup c s)
  unfolding wakeup
  wakeup-Good s c v =
      returns (Quiet-TableInv s.proc (wakeup1 c s.proc) s.initproc v (wakeup1-Quiet c s.proc))

  -- sleep on an address, never on a process
  pub sleep-Good :
      (s : Procs E) (cur a : ℕ)
      → Good s
      → live (s.proc cur).state ≡ true
      → Safe (λ _ t. Good t) (sleep cur (Chan.on_addr a) s)
  unfolding sleep
  sleep-Good s cur a v l = returns (
      Quiet-change s cur _ v (record {
        parent = refl;
        pid = refl;
        zombie = ground arith;
        settles = ground arith;
        lives = ground arith;
        used = ground arith;
        awaits = λ h. ground arith;
      }))

  pub sleep_end-Good : (s : Procs E) (cur : ℕ) → Good s → Safe (λ _ t. Good t) (sleep_end cur s)
  unfolding sleep_end
  sleep_end-Good s cur v = returns (
      Quiet-change s cur _ v (record {
        parent = refl;
        pid = refl;
        zombie = refl;
        settles = refl;
        lives = refl;
        used = refl;
        awaits = λ h. ground arith;
      }))

  pub yield-Good :
      (s : Procs E) (cur : ℕ)
      → Good s
      → live (s.proc cur).state ≡ true
      → Safe (λ _ t. Good t) (yield cur s)
  unfolding yield
  yield-Good s cur v l = returns (
      Quiet-change s cur _ v (record {
        parent = refl;
        pid = refl;
        zombie = ground arith;
        settles = ground arith;
        lives = ground arith;
        used = ground arith;
        awaits = λ h. ground arith;
      }))

  module _ (ops : ProcOps E) where
    pub dispatch-Good : (s : Procs E) (i : ℕ) → Good s → Safe (λ _ t. Good t) (dispatch ops i s)
    unfolding dispatch
    dispatch-Good s i v = elim (Bool-cases (is_runnable (s.proc i).state)) [
      | inl r ↦ simp r (
          ext_bind (ops.switchuvm (s.proc i).pgdir s.ext) _ s λ a e. returns (
            Quiet-change s i _ v (record {
              parent = refl;
              pid = refl;
              zombie = ground arith;
              settles = ground arith;
              lives = ground arith;
              used = ground arith;
              awaits = λ h. ground arith;
            })))
      | inr r ↦ simp r (returns v)
    ]

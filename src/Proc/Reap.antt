-- ===== src/Proc/Reap.antt =====
-- proc.c: `exit` and `wait` keep the invariant of the process table.
use operating_systems_assign.Proc.Scan.{find_from-none, find_from-some}
use operating_systems_assign.Proc.Ops.{sleep}
use operating_systems_assign.Base.{
  Bool-cases, List, Option, [], ap, arith, if◌then◌else◌, inl, inr, none, refl, some, sym, true, ℕ,
  ◌&&◌, ◌<◌, ◌==◌, ◌∙◌, ◌∷◌, ◌≡◌, Bool, is_some, not, ◌||◌, ◌≢◌,
}
use operating_systems_assign.Kernel.{pure, panics, Run, done, sleeps}
use operating_systems_assign.Kernel.Ends.{Safe, Safe-bind, panicked, returns, Safe-done}
use operating_systems_assign.Proc.{
  Chan, Proc, ProcOps, Procs, find_from, is_sleeping, is_unused, is_zombie, nproc, parent_is,
  same_chan, update, ProcState,
}
use operating_systems_assign.Proc.Exit.{exit, wait, wait_found, close_files, reaped, exit_last}
use operating_systems_assign.Proc.Inv.{Quiet, live, settled, reap-TableInv, wait-TableInv}
use operating_systems_assign.Proc.Steps.{Good, ext_bind, Quiet-change}
use operating_systems_assign.Proc.Zombie.{exit_table-TableInv}

-- a change that the invariant does not see, in every part of the process that it reads
pub same_Quiet :
    (i : ℕ) (p q : Proc)
    → q.parent ≡ p.parent
    → q.pid ≡ p.pid
    → q.state ≡ p.state
    → q.chan ≡ p.chan
    → Quiet i p q
same_Quiet i p q a b c d = record {
  parent = a;
  pid = b;
  zombie = ap is_zombie c;
  settles = ap settled c;
  lives = ap live c;
  used = ap is_unused c;
  awaits = λ h.
      ap (λ s. is_sleeping s && same_chan p.chan (Chan.on_proc i)) (sym c)
      ∙ ap (λ k. is_sleeping q.state && same_chan k (Chan.on_proc i)) (sym d)
      ∙ h;
}

update_self : (f : ℕ → Proc) (i : ℕ) (p : Proc) → update f i p i ≡ p
update_self f i p = ground arith

zombie_of : (b : Bool) (st : ProcState) → (b && is_zombie st) ≡ true → st ≡ ProcState.zombie
zombie_of b st e = ground arith

module _ {E : Type 0} (ops : ProcOps E) (cur : ℕ) where
  -- the process `cur` can run
  Runs : Procs E → Type 0
  Runs s = Good s × (live (s.proc cur).state ≡ true)

  Quiet-Runs :
      (s : Procs E) (p : Proc)
      → Runs s
      → Quiet cur (s.proc cur) p
      → Runs (record s { proc = update s.proc cur p })
  unfolding Runs
  Quiet-Runs s p v q = (
    Quiet-change s cur p v.0 q,
    ap (λ (r : Proc). live r.state) (update_self s.proc cur p) ∙ q.lives ∙ v.1,
  )

  close_files_ext :
      (fs : List ℕ) (s : Procs E)
      → Safe (λ _ t. t ≡ record s { ext = t.ext }) (close_files ops fs s)
  unfolding close_files
  close_files_ext [] s = returns refl
  close_files_ext (f ∷ fs) s =
      ext_bind ((if f == 0 then pure tt else ops.fileclose f) s.ext) _ s
        λ _ x. Safe-bind (close_files_ext fs (record s { ext = x })) λ gs t e. returns e

  exit-Safe :
      (s : Procs E)
      → Good s
      → cur < nproc
      → live (s.proc cur).state ≡ true
      → Safe (λ _ t. Good t) (exit ops cur s)
  unfolding exit Runs
  exit-Safe s v hc run = elim (Bool-cases (cur == s.initproc)) [
    | inl e ↦ simp e panicked
    | inr e ↦ simp e (
        Safe-bind (close_files_ext (s.proc cur).ofile s) λ files t same. rw same (
          let s1 : Procs E = record s { ext = t.ext } in
          let p2 = record (s.proc cur) { ofile = files } in
          let s2 : Procs E = record s1 { proc = update s.proc cur p2 } in
          let v2 : Runs s2 =
            Quiet-Runs s1 p2 (v, run) (same_Quiet cur (s.proc cur) p2 refl refl refl refl) in
          ext_bind (ops.begin_op t.ext) _ s2 λ _ x.
            ext_bind (ops.iput (s.proc cur).cwd x) _ (record s2 { ext = x })
              λ _ y.
                ext_bind (ops.end_op y) _ (record s2 { ext = y })
                  λ _ z.
                    (let s3 : Procs E = record s2 { ext = z } in
                      let p4 = record (s3.proc cur) { cwd = 0 } in
                      let v4 =
                        Quiet-Runs s3 p4 v2 (same_Quiet cur (s3.proc cur) p4 refl refl refl refl) in
                      returns (
                        exit_table-TableInv cur s.initproc (update s3.proc cur p4) v4.0 hc
                          (ground arith) v4.1))))
  ]

  -- The section of `exit` under the lock keeps the invariant.
  pub exit_last-Good :
      (s : Procs E)
      → Good s
      → cur < nproc
      → live (s.proc cur).state ≡ true
      → cur ≢ s.initproc
      → Safe (λ _ t. Good t) (exit_last ops cur s)
  exit_last-Good s v hc run ne = returns (exit_table-TableInv cur s.initproc s.proc v hc ne run)

  -- What `exit` may come to: the process that exits or sleeps on the way is not init.
  abbrev pub ExitOutcome : Procs E → Run (Procs E) (Unit {0}) → Type 0
  ExitOutcome s (done a t) = (cur ≢ s.initproc) × Good t
  ExitOutcome s sleeps = cur ≢ s.initproc
  ExitOutcome s panics = Unit

  init_panics : (s : Procs E) → (cur == s.initproc) ≡ true → ExitOutcome s (exit ops cur s)
  unfolding exit
  init_panics s e = simp e tt

  not_init :
      (s : Procs E) (r : Run (Procs E) (Unit {0}))
      → cur ≢ s.initproc
      → Safe (λ _ t. Good t) r
      → ExitOutcome s r
  not_init s (done a t) ne h = (ne, Safe-done h refl)
  not_init s sleeps ne h = ne
  not_init s panics ne h = tt

  -- `exit` of a process that can run keeps the invariant when it comes to its end; for init it comes
  -- neither to its end nor to a sleep, but panics.
  pub exit-Good :
      (s : Procs E)
      → Good s
      → cur < nproc
      → live (s.proc cur).state ≡ true
      → ExitOutcome s (exit ops cur s)
  exit-Good s v hc run = elim (Bool-cases (cur == s.initproc)) [
    | inl e ↦ init_panics s e
    | inr e ↦ not_init s (exit ops cur s) (ground arith) (exit-Safe s v hc run)
  ]

  -- One round of `wait` keeps the invariant: it reaps a zombie, gives up, or goes to sleep when no
  -- child is a zombie.
  pub wait-Good :
      (s : Procs E)
      → Good s
      → live (s.proc cur).state ≡ true
      → Safe (λ _ t. Good t) (wait ops cur s)
  unfolding wait sleep
  wait-Good s v run =
      go (find_from (λ p. parent_is p.parent cur && is_zombie p.state) s.proc 0 nproc) refl
    where
      go :
          (o : Option ℕ)
          → find_from (λ p. parent_is p.parent cur && is_zombie p.state) s.proc 0 nproc ≡ o
          → Safe (λ _ t. Good t) (wait_found ops cur o s)
      go none e =
          elim (Bool-cases (
            not (is_some (find_from (λ p. parent_is p.parent cur) s.proc 0 nproc))
            || (s.proc cur).killed)) [
              | inl b ↦ simp b (returns v)
              | inr b ↦ simp b (
                  returns (
                    wait-TableInv s.proc s.initproc v cur
                      (record (s.proc cur) { chan = Chan.on_proc cur; state = ProcState.sleeping })
                      run refl
                      (λ c h.
                        find_from-none (λ p. parent_is p.parent cur && is_zombie p.state) s.proc 0
                          nproc e c (omega arith) (omega arith))))
            ]
      go (some i) e =
          let (_, lt, t, _) =
            find_from-some (λ p. parent_is p.parent cur && is_zombie p.state) s.proc 0 nproc i e in
          ext_bind (ops.kfree (s.proc i).kstack s.ext) _ s λ _ x.
            let s1 : Procs E = record s { ext = x } in
            let p1 = record (s.proc i) { kstack = 0 } in
            let s2 : Procs E = record s1 { proc = update s.proc i p1 } in
            let v2 : Good s2 =
              Quiet-change s1 i p1 v (same_Quiet i (s.proc i) p1 refl refl refl refl) in
            ext_bind (ops.freevm (s.proc i).pgdir x) _ s2 λ _ y. returns (
              reap-TableInv s2.proc s2.initproc v2 i (reaped (s2.proc i))
                (ap (λ (p : Proc). p.state) (update_self s.proc i p1) ∙ zombie_of _ _ t) refl refl)

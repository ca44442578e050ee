-- ===== src/Proc/Reach.antt =====
-- proc.c: every state that the routines can reach, in any order of calls by processes that can run,
-- satisfies the invariant of the process table. `fork` and `exit` are split where they hold no lock.
use operating_systems_assign.Base.{
  Bool, Option, arith, refl, some, true, ℕ, ◌<◌, ◌≡◌, ◌≢◌, ap, none, false, List,
}
use operating_systems_assign.Base.Int.{ℤ}
use operating_systems_assign.Kernel.{done}
use operating_systems_assign.Kernel.Ends.{Safe-done}
use operating_systems_assign.Proc.{Chan, ProcOps, ProcState, Procs, nproc, Proc, update}
use operating_systems_assign.Proc.Ops.{
  dispatch, kill, sleep, sleep_end, wakeup, yield, alloc_stack, fork_fill, fork_settle, take_entry,
}
use operating_systems_assign.Proc.Exit.{wait, exit_last}
use operating_systems_assign.Proc.Inv.{live, live_at, settled}
use operating_systems_assign.Proc.Steps.{
  Good, dispatch-Good, kill-Good, sleep-Good, sleep_end-Good, wakeup-Good, yield-Good, Quiet-change,
}
use operating_systems_assign.Proc.Create.{
  Creating, Fresh, Filled, take_entry-Creating, alloc_stack-Fresh, fork_fill-Filled,
  fork_settle-Good,
}
use operating_systems_assign.Proc.Reap.{same_Quiet, exit_last-Good, wait-Good}

parent_of :
    (f : ℕ → Proc) (o : Option ℕ)
    → live_at f o ≡ true
    → (q : ℕ) × (o ≡ some q) × (q < nproc) × (live (f q).state ≡ true)
parent_of f none h = cc
parent_of f (some q) h = (q, refl, ground arith, ground arith)

module _ {E : Type 0} (ops : ProcOps E) where
  -- the process `cur` is in the table and can run
  abbrev pub CanRun : Procs E → ℕ → Type 0
  CanRun s cur = (cur < nproc) × (live (s.proc cur).state ≡ true)

  -- the process `np` is in creation while `cur` can run
  abbrev pub InFork : Procs E → ℕ → ℕ → Type 0
  InFork s cur np = CanRun s cur × (np < nproc) × ((s.proc np).state ≡ ProcState.embryo)

  InFork-Creating : (s : Procs E) (cur np : ℕ) → Good s → InFork s cur np → Creating cur np s
  InFork-Creating s cur np v (c, l, e) = record {
    good = v;
    np_in = l;
    cur_in = c.0;
    embryo_ = e;
    runs = c.1;
  }

  Fresh-Good : (cur : ℕ) (o : Option ℕ) (t : Procs E) → Fresh ops cur o t → Good t
  unfolding Fresh
  Fresh-Good cur none t v = v
  Fresh-Good cur (some i) t c = c.good

  Filled-Good : (cur np : ℕ) (b : Bool) (t : Procs E) → Filled ops cur np b t → Good t
  unfolding Filled
  Filled-Good cur np true t v = v.0.good
  Filled-Good cur np false t v = v

  -- One routine that returns, or one part of `fork`, called for a process that can run where it
  -- works on the caller.
  pub data Step (s t : Procs E) : Type 0 where
    -- the four parts of `fork`: each changes the child alone, and other processes run between them
    takes :
        (cur i : ℕ)
        → CanRun s cur
        → i < nproc
        → (s.proc i).state ≡ ProcState.unused
        → take_entry ops i s ≡ done tt t
        → Step s t
    stacks :
        (cur np : ℕ) (r : Option ℕ) → InFork s cur np → alloc_stack ops np s ≡ done r t → Step s t
    fills : (cur np : ℕ) (r : Bool) → InFork s cur np → fork_fill ops cur np s ≡ done r t → Step s t
    settles :
        (cur np : ℕ) (r : ℤ)
        → InFork s cur np
        → (s.proc np).parent ≡ some cur
        → fork_settle ops np s ≡ done r t
        → Step s t
    -- a change of the caller's own open files and directory, as in `exit` without the lock
    alters :
        (cur : ℕ) (files : List ℕ) (cwd : ℕ)
        → CanRun s cur
        → t
          ≡ record s { proc = update s.proc cur (record (s.proc cur) { ofile = files; cwd = cwd }) }
        → Step s t
    -- the section of `exit` under the lock, behind the test for init
    exits : (cur : ℕ) → CanRun s cur → cur ≢ s.initproc → exit_last ops cur s ≡ done tt t → Step s t
    looks : (cur : ℕ) (r : Option ℤ) → CanRun s cur → wait ops cur s ≡ done r t → Step s t
    kills : (pid : ℕ) (r : ℤ) → kill pid s ≡ done r t → Step s t
    wakes : (c : Chan) → wakeup c s ≡ done tt t → Step s t
    dozes : (cur a : ℕ) → CanRun s cur → sleep cur (Chan.on_addr a) s ≡ done tt t → Step s t
    resumes : (cur : ℕ) → sleep_end cur s ≡ done tt t → Step s t
    yields : (cur : ℕ) → CanRun s cur → yield cur s ≡ done tt t → Step s t
    runs : (i : ℕ) (r : Bool) → dispatch ops i s ≡ done r t → Step s t
    -- a change of another part of the kernel alone
    elsewhere : (e : E) → t ≡ record s { ext = e } → Step s t

  pub data Reach (s : Procs E) : Procs E → Type 0 where
    here : Reach s s
    next : {t u : Procs E} → Reach s t → Step t u → Reach s u

  -- Each routine of the process table keeps the invariant.
  pub Step-Good : (s t : Procs E) → Step s t → Good s → Good t
  Step-Good s t (takes cur i c l u e) v =
      let k : Creating cur i t = Safe-done (take_entry-Creating ops cur s i v c.0 c.1 l u) e in
      k.good
  Step-Good s t (stacks cur np r c e) v =
      Fresh-Good cur r t
        (Safe-done (alloc_stack-Fresh ops cur s np (InFork-Creating s cur np v c)) e)
  Step-Good s t (fills cur np r c e) v =
      Filled-Good cur np r t
        (Safe-done (fork_fill-Filled ops cur s np (InFork-Creating s cur np v c)) e)
  Step-Good s t (settles cur np r c o e) v =
      Safe-done (fork_settle-Good ops cur s np (InFork-Creating s cur np v c) o) e
  Step-Good s t (alters cur files cwd c e) v = rw e (
      Quiet-change s cur _ v (
        same_Quiet cur (s.proc cur) (record (s.proc cur) { ofile = files; cwd = cwd }) refl refl
          refl refl))
  Step-Good s t (exits cur c ne e) v = Safe-done (exit_last-Good ops cur s v c.0 c.1 ne) e
  Step-Good s t (looks cur r c e) v = Safe-done (wait-Good ops cur s v c.1) e
  Step-Good s t (kills pid r e) v = Safe-done (kill-Good s pid v) e
  Step-Good s t (wakes c e) v = Safe-done (wakeup-Good s c v) e
  Step-Good s t (dozes cur a c e) v = Safe-done (sleep-Good s cur a v c.1) e
  Step-Good s t (resumes cur e) v = Safe-done (sleep_end-Good s cur v) e
  Step-Good s t (yields cur c e) v = Safe-done (yield-Good s cur v c.1) e
  Step-Good s t (runs i r e) v = Safe-done (dispatch-Good ops s i v) e
  Step-Good s t (elsewhere e h) v = rw h v

  -- From a state that satisfies it, the invariant holds in every state that the routines reach.
  pub Reach-Good : (s t : Procs E) → Reach s t → Good s → Good t
  Reach-Good s s' here v = v
  Reach-Good s u (next {t} r st) v = Step-Good t u st (Reach-Good s t r v)

  -- No wakeup is lost: in every state reached, a process asleep in `wait` has no zombie child to be
  -- waited for.
  pub wait-not_lost :
      (s t : Procs E) (p c : ℕ)
      → Good s
      → Reach s t
      → p < nproc
      → c < nproc
      → (t.proc p).state ≡ ProcState.sleeping
      → (t.proc p).chan ≡ Chan.on_proc p
      → (t.proc c).parent ≡ some p
      → (t.proc c).state ≢ ProcState.zombie
  wait-not_lost s t p c v r hp hc st ch pa z =
      let w = (Reach-Good s t r v).waiting p c hp hc in ground (arith, w)

  -- No orphan: in every state reached, every zombie has a parent in the table that can still run,
  -- and so can reap it.
  pub zombie-has_parent :
      (s t : Procs E) (c : ℕ)
      → Good s
      → Reach s t
      → c < nproc
      → (t.proc c).state ≡ ProcState.zombie
      → (q : ℕ) × ((t.proc c).parent ≡ some q) × (q < nproc) × (live (t.proc q).state ≡ true)
  zombie-has_parent s t c v r hc z =
      let w = Reach-Good s t r v in
      let ne : c ≢ t.initproc = λ e. ground (arith, w.init_live) in
      parent_of t.proc (t.proc c).parent (w.parented c hc ne (ap settled z))

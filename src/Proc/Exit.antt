-- ===== src/Proc/Exit.antt =====
-- proc.c: `exit` and `wait`.
use operating_systems_assign.Base.{
  List, Option, [], false, if◌then◌else◌, is_some, none, not, set, some, suc, zero, ℕ, ◌&&◌, ◌==◌,
  ◌||◌, ◌∷◌,
}
use operating_systems_assign.Base.Int.{negsuc, ℤ}
use operating_systems_assign.Kernel.{Cmd, get, modify, panic_if, pure, ◌>>=◌, ◌>>◌}
use operating_systems_assign.Proc.{
  Chan, Proc, ProcOps, ProcState, Procs, change, find_from, is_zombie, nproc, on_ext, parent_is,
  update,
}
use operating_systems_assign.Proc.Ops.{int, sleep, wakeup1}

-- one round of the loop that passes the children of `cur` to init
abbrev pub adopt : ℕ → ℕ → ℕ → (ℕ → Proc) → ℕ → Proc
adopt cur init i f =
    if parent_is (f i).parent cur
    then (let g = update f i (record (f i) { parent = some init }) in
        if is_zombie (f i).state then wakeup1 (Chan.on_proc init) g else g)
    else f

-- the loop from index `i` on, `n` rounds
unfoldable pub adopt_all : ℕ → ℕ → ℕ → ℕ → (ℕ → Proc) → ℕ → Proc
adopt_all cur init i zero f = f
adopt_all cur init i (suc n) f = adopt_all cur init (suc i) n (adopt cur init i f)

abbrev pub wakeup_parent : Option ℕ → (ℕ → Proc) → ℕ → Proc
wakeup_parent none f = wakeup1 Chan.nowhere f
wakeup_parent (some i) f = wakeup1 (Chan.on_proc i) f

-- the section of `exit` under ptable.lock, up to the switch to the scheduler
unfoldable pub exit_table : ℕ → ℕ → (ℕ → Proc) → ℕ → Proc
exit_table cur init f =
    let g = adopt_all cur init 0 nproc (wakeup_parent (f cur).parent f) in
    update g cur (record (g cur) { state = ProcState.zombie })

-- the parts of a reaped child that `wait` resets
abbrev pub reaped : Proc → Proc
reaped p = record p {
  pid = 0;
  parent = none;
  name = set p.name 0 0;
  killed = false;
  state = ProcState.unused;
}

module _ {E : Type 0} (ops : ProcOps E) where
  open ops use {kfree, freevm, fileclose, iput, begin_op, end_op}

  -- the loop over the open files gives their entries, all closed
  unfoldable pub close_files : List ℕ → Cmd (Procs E) (List ℕ)
  close_files [] = pure []
  close_files (f ∷ fs) = do
    on_ext (if f == 0 then pure tt else fileclose f)
    fs' ← close_files fs
    pure (0 ∷ fs')

  -- the section of `exit` under ptable.lock
  abbrev pub exit_last : ℕ → Cmd (Procs E) (Unit {0})
  exit_last cur = modify (λ t. record t { proc = exit_table cur t.initproc t.proc })

  -- A process that has exited does not return: its last step leaves it a zombie.
  unfoldable pub exit : ℕ → Cmd (Procs E) (Unit {0})
  exit cur = do
    s ← get
    panic_if (cur == s.initproc)
    files ← close_files (s.proc cur).ofile
    change cur (λ p. record p { ofile = files })
    on_ext begin_op
    on_ext (iput (s.proc cur).cwd)
    on_ext end_op
    change cur (λ p. record p { cwd = 0 })
    exit_last cur

  -- One round of the loop of `wait`: `none` is a process that has gone to sleep on itself.
  abbrev pub wait_found : ℕ → Option ℕ → Cmd (Procs E) (Option ℤ)
  wait_found cur (some i) = do
    s ← get
    on_ext (kfree (s.proc i).kstack)
    change i (λ p. record p { kstack = 0 })
    on_ext (freevm (s.proc i).pgdir)
    change i reaped
    pure (some (int (s.proc i).pid))
  wait_found cur none = do
    s ← get
    if not (is_some (find_from (λ p. parent_is p.parent cur) s.proc 0 nproc)) || (s.proc cur).killed
        then pure (some (negsuc 0))
        else do sleep cur (Chan.on_proc cur); pure none

  unfoldable pub wait : ℕ → Cmd (Procs E) (Option ℤ)
  wait cur s =
      wait_found cur (find_from (λ p. parent_is p.parent cur && is_zombie p.state) s.proc 0 nproc) s

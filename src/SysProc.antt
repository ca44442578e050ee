-- ===== src/SysProc.antt =====
-- sysproc.c: the system calls over the process table and the clock. An argument is what `argint`
-- gives, as its 32 bits.
use operating_systems_assign.Base.{
  Bool, Option, false, if◌then◌else◌, ltb, none, some, true, ℕ, ◌%◌, ◌+◌, ◌-◌, ◌^◌, not, ◌==◌, ◌||◌,
}
use operating_systems_assign.Base.Int.{negsuc, pos, ℤ}
use operating_systems_assign.Kernel.{Cmd, Run, done, get, pure, sleeps, ◌>>=◌}
use operating_systems_assign.Proc.{ProcOps, Procs}
use operating_systems_assign.Proc.Ops.{growproc, kill}

-- the `int` of 32 bits
abbrev pub signed : ℕ → ℤ
signed w = if ltb w (2 ^ 31) then pos w else negsuc (2 ^ 32 - 1 - w)

abbrev is_negative : ℤ → Bool
is_negative (pos n) = false
is_negative (negsuc n) = true

module _ {E : Type 0} (ops : ProcOps E) where
  unfoldable pub sys_kill : Option ℕ → Cmd (Procs E) ℤ
  unfolding kill
  sys_kill none = pure (negsuc 0)
  sys_kill (some pid) = kill pid

  unfoldable pub sys_getpid : ℕ → Cmd (Procs E) ℕ
  sys_getpid cur s = done (s.proc cur).pid s

  unfoldable pub sys_sbrk : ℕ → Option ℕ → Cmd (Procs E) ℤ
  unfolding growproc
  sys_sbrk cur none = pure (negsuc 0)
  sys_sbrk cur (some n) = do
    s ← get
    r ← growproc ops cur (signed n)
    if is_negative r then pure (negsuc 0) else pure (signed (s.proc cur).sz)

-- One round of the loop of `sys_sleep`, which began at `ticks0`; the comparison is unsigned.
unfoldable pub sys_sleep : ℕ → ℕ → ℕ → Bool → Run (Unit {0}) ℤ
sys_sleep n ticks0 ticks killed =
    if ltb ((ticks + 2 ^ 32 - ticks0) % 2 ^ 32) n
    then (if killed then done (negsuc 0) tt else sleeps)
    else done (pos 0) tt

-- the clock, which wraps around
unfoldable pub sys_uptime : ℕ → ℕ
sys_uptime ticks = ticks % 2 ^ 32

-- the checks of `sched` before it switches: the table's lock held, alone, by a process that does not
-- run any more, with interrupts off
unfoldable pub sched_panics : Bool → ℕ → Bool → Bool → Bool
sched_panics held ncli still_running interrupts =
    not held || not (ncli == 1) || still_running || interrupts

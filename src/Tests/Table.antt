-- ===== src/Tests/Table.antt =====
-- proc.c at a concrete table: init and one child.
use operating_systems_assign.Base.{
  [], arith, false, none, refl, some, suc, true, zero, ℕ, ◌<◌, ◌∷◌, ◌≡◌, ◌≢◌,
}
use operating_systems_assign.Kernel.{done}
use operating_systems_assign.Kernel.Ends.{Ends, Safe}
use operating_systems_assign.Proc.{
  Chan, Proc, ProcOps, ProcState, Procs, is_zombie, nproc, parent_is, update,
}
use operating_systems_assign.Proc.Ops.{fork, kill, yield}
use operating_systems_assign.Proc.Exit.{exit}
use operating_systems_assign.Proc.Inv.{live_at, settled}
use operating_systems_assign.Proc.Steps.{Good}
use operating_systems_assign.Proc.Create.{fork-Good}
use operating_systems_assign.Proc.Reap.{exit-Good, ExitOutcome}
use operating_systems_assign.Proc.Reach.{Reach, Reach-Good, here, next, wait-not_lost, yields}
use operating_systems_assign.Proc.Kill.{kill-zero, KillsFirst}

abbrev empty_entry : Proc
empty_entry = record {
  sz = 0;
  pgdir = 0;
  kstack = 0;
  state = ProcState.unused;
  pid = 0;
  parent = none;
  tf = 0;
  frame = record { eax = 0; others = [] };
  context = 0;
  context_eip = 0;
  return_to = 0;
  chan = Chan.nowhere;
  killed = false;
  ofile = [];
  cwd = 0;
  name = [];
  uid = 0;
}

abbrev entries : ℕ → Proc
entries zero = record empty_entry {
  state = ProcState.sleeping;
  pid = 1;
  pgdir = 4096;
  chan = Chan.on_proc 0;
}
entries (suc zero) = record empty_entry {
  state = ProcState.running;
  pid = 2;
  pgdir = 8192;
  parent = some 0;
  ofile = 7 ∷ 0 ∷ [];
}
entries (suc (suc i)) = empty_entry

-- a kernel whose allocators always give the same page
abbrev page_ops : ProcOps (Unit {0})
page_ops = record {
  kalloc = done 4096;
  kfree = λ a. done tt;
  copyuvm = λ a b. done 4096;
  allocuvm = λ a b c. done c;
  deallocuvm = λ a b c. done c;
  switchuvm = λ a. done tt;
  freevm = λ a. done tt;
  filedup = λ f. done f;
  fileclose = λ f. done tt;
  idup = λ i. done i;
  iput = λ i. done tt;
  begin_op = done tt;
  end_op = done tt;
  forkret = 1;
  trapret = 2;
}

abbrev family : Procs (Unit {0})
family = record { proc = entries; nextpid = 3; initproc = 0; ext = tt }

family-Good : Good family
family-Good = record {
  waiting = λ p c hp hc w e. not_zombie c;
  parented = has_parent;
  init_in = omega arith;
  init_live = refl;
  no_self = not_own;
  init_root = refl;
}
  where
    not_zombie : (c : ℕ) → is_zombie (entries c).state ≡ false
    not_zombie zero = refl
    not_zombie (suc zero) = refl
    not_zombie (suc (suc c)) = refl

    has_parent :
        (c : ℕ)
        → c < nproc
        → c ≢ 0
        → settled (entries c).state ≡ true
        → live_at entries (entries c).parent ≡ true
    has_parent zero h ne e = absurd (ne refl)
    has_parent (suc zero) h ne e = refl
    has_parent (suc (suc c)) h ne e = absurd (ground arith)

    not_own : (c : ℕ) → c < nproc → parent_is (entries c).parent c ≡ false
    not_own zero h = refl
    not_own (suc zero) h = refl
    not_own (suc (suc c)) h = refl

fork-Good_example : Safe (λ _ t. Good t) (fork page_ops 1 family)
fork-Good_example = fork-Good page_ops 1 family family-Good (omega arith) refl

exit-Good_example : ExitOutcome page_ops 1 family (exit page_ops 1 family)
exit-Good_example = exit-Good page_ops 1 family family-Good (omega arith) refl

abbrev yielded : Procs (Unit {0})
yielded = record family {
  proc = update entries 1 (record (entries 1) { state = ProcState.runnable });
}

yielded-Reach : Reach page_ops family yielded
unfolding yield
yielded-Reach = next here (yields 1 (omega arith, refl) refl)

Reach-Good_example : Good yielded
Reach-Good_example = Reach-Good page_ops family yielded yielded-Reach family-Good

wait-not_lost_example : (yielded.proc 1).state ≢ ProcState.zombie
wait-not_lost_example =
    wait-not_lost page_ops family yielded 0 1 family-Good yielded-Reach (omega arith) (omega arith)
      refl refl refl

kill-zero_example : Ends (KillsFirst family 0) (kill 0 family)
kill-zero_example = kill-zero family 2 (omega arith) refl

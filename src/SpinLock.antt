-- ===== src/SpinLock.antt =====
-- spinlock.c: mutual exclusion on several CPUs, and the counted disabling of interrupts.
pub mod Balance
use operating_systems_assign.Base.{
  Bool, Option, false, if◌then◌else◌, none, some, true, ℕ, ◌&&◌, ◌+◌, ◌-◌, ◌==◌,
}
use operating_systems_assign.Kernel.{Cmd, Run, done, panics, sleeps}

-- the parts of struct cpu that the locks use, with the interrupt flag of its processor
pub record Cpu : Type 0 where
  pub interrupts : Bool
  pub ncli : ℕ
  pub intena : Bool

-- struct spinlock, without the parts for debugging; `cpu` is none for 0
pub record SpinLock : Type 0 where
  pub locked : Bool
  pub cpu : Option ℕ

-- what the CPU that runs sees
pub record Locking : Type 0 where
  pub lock : SpinLock
  pub here : Cpu

unfoldable pub initlock : SpinLock
initlock = record { locked = false; cpu = none }

unfoldable pub pushcli : Cpu → Cpu
pushcli c = record c {
  interrupts = false;
  intena = if c.ncli == 0 then c.interrupts else c.intena;
  ncli = c.ncli + 1;
}

unfoldable pub popcli : Cmd Cpu (Unit {0})
popcli c =
    if c.interrupts
    then panics
    else if c.ncli == 0
    then panics
    else (let n = c.ncli - 1 in done tt (record c { ncli = n; interrupts = n == 0 && c.intena }))

abbrev pub owned_by : ℕ → Option ℕ → Bool
owned_by me none = false
owned_by me (some c) = c == me

-- `holding` without the `pushcli` and `popcli` around the test
unfoldable pub holds : ℕ → SpinLock → Bool
holds me lk = lk.locked && owned_by me lk.cpu

-- the state after a command on the CPU alone
abbrev pub on_cpu :
    SpinLock → Run Cpu (Unit {0}) → (Locking → Run Locking (Unit {0})) → Run Locking (Unit {0})
on_cpu lk (done u c) k = k (record { lock = lk; here = c })
on_cpu lk sleeps k = sleeps
on_cpu lk panics k = panics

-- One try of `acquire` on the CPU `me`: a CPU that finds the lock taken spins, and tries again.
unfoldable pub acquire : ℕ → Cmd Locking (Unit {0})
unfolding pushcli popcli holds
acquire me s = on_cpu s.lock (popcli (pushcli (pushcli s.here))) (λ t.
    if holds me t.lock
    then panics
    else if t.lock.locked
    then sleeps
    else done tt (record t { lock = record { locked = true; cpu = some me } }))

unfoldable pub release : ℕ → Cmd Locking (Unit {0})
unfolding pushcli popcli holds
release me s = on_cpu s.lock (popcli (pushcli s.here)) (λ t.
    if holds me t.lock
    then on_cpu (record { locked = false; cpu = none }) (popcli t.here) (λ u. done tt u)
    else panics)

-- ===== src/SleepLock.antt =====
-- sleeplock.c: long-term locks. The inner spinlock makes each routine one atomic step; `pid` is the
-- process that runs it (`myproc()->pid`).
use operating_systems_assign.Base.{Bool, false, if◌then◌else◌, true, ℕ, ◌&&◌, ◌==◌}
use operating_systems_assign.Kernel.{Cmd, done, sleeps}

pub record SleepLock : Type 0 where
  pub locked : Bool
  pub pid : ℕ

unfoldable pub initsleeplock : SleepLock
initsleeplock = record { locked = false; pid = 0 }

-- One round of the loop: a process that finds the lock taken goes to sleep, and tries again later.
unfoldable pub acquiresleep : ℕ → Cmd SleepLock (Unit {0})
acquiresleep pid lk = if lk.locked then sleeps else done tt (record { locked = true; pid = pid })

unfoldable pub releasesleep : Cmd SleepLock (Unit {0})
releasesleep lk = done tt (record { locked = false; pid = 0 })

unfoldable pub holdingsleep : ℕ → SleepLock → Bool
holdingsleep pid lk = lk.locked && lk.pid == pid

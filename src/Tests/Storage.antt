-- ===== src/Tests/Storage.antt =====
-- log.c and the permission checks at concrete inputs.
use operating_systems_assign.Bcache.{Buf, bget_buf}
use operating_systems_assign.Bcache.Copies.{BufOutcome, IsSingle, bget_buf-BufOutcome, copies}
use operating_systems_assign.Kernel.Ends.{Ends}
use operating_systems_assign.Base.{
  arith, false, inr, not, refl, true, ◌+◌, ◌||◌, ◌≡◌, [], ◌∷◌, List,
}
use operating_systems_assign.Log.{Log, boot, commit, recover_from_log}
use operating_systems_assign.Log.Recover.{installed}
use operating_systems_assign.Log.Crash.{commit-recover}
use operating_systems_assign.Permission.{
  sys_chmod, Inode, file_readable, file_writable, has_own, has_read_permission,
  has_write_permission, open_allowed,
}
use operating_systems_assign.Permission.Access.{
  open_allowed-permission, sys_chmod-digit, ChmodOutcome,
}

-- a log of 30 slots at block 2, with a transaction of the blocks 40 and 41 in the cache, on a machine
-- that stops after 4 block writes
abbrev busy : Log
busy = record {
  start = 2;
  size = 30;
  outstanding = 0;
  committing = true;
  n = 2;
  block = λ i. 40 + i;
  cache = λ b i. b + 7;
  disk = λ b i. 0;
  power = 4;
}

commit-recover_example :
    (recover_from_log (boot (commit busy) 10)).disk 40
    ≡ installed 2 busy.block busy.cache busy.disk 40
commit-recover_example =
    commit-recover busy 30 10 40 refl (λ t a b. inr (omega arith)) (omega arith) (omega arith)
      (inr (omega arith))

sys_chmod-digit_example :
    ChmodOutcome 5 38 7
      (record { type = 2; owner = 5; perm = 0 })
      (sys_chmod 5 38 (record { type = 2; owner = 5; perm = 0 }))
sys_chmod-digit_example = sys_chmod-digit 5 38 7 (record { type = 2; owner = 5; perm = 0 }) refl

abbrev secret : Inode
secret = record { type = 2; owner = 5; perm = 48 }

secret-allowed : open_allowed 5 2 secret ≡ true
unfolding open_allowed has_read_permission has_write_permission has_own
secret-allowed = refl

open_allowed-permission_example :
    ((not (file_readable 2) || has_read_permission 5 secret) ≡ true)
    × ((not (file_writable 2) || has_write_permission 5 secret) ≡ true)
open_allowed-permission_example = open_allowed-permission 5 2 secret (omega arith) secret-allowed

abbrev empty_log : Log
empty_log = record {
  start = 2;
  size = 30;
  outstanding = 0;
  committing = false;
  n = 0;
  block = λ i. 0;
  cache = λ b i. 0;
  disk = λ b i. 0;
  power = 100;
}

abbrev begun : Log
begun = record empty_log { outstanding = 1 }

-- a cache of two buffers, for the block 4 and never used
abbrev two_bufs : List Buf
two_bufs =
    record {
      slot = 1;
      valid = true;
      dirty = false;
      dev = 1;
      blockno = 4;
      lock = record { locked = false; pid = 0 };
      refcnt = 0;
      bytes = λ _. 7;
    }
    ∷ record {
      slot = 0;
      valid = false;
      dirty = false;
      dev = 0;
      blockno = 0;
      lock = record { locked = false; pid = 0 };
      refcnt = 0;
      bytes = λ _. 0;
    }
    ∷ []

two_bufs-IsSingle : IsSingle two_bufs
unfolding copies
two_bufs-IsSingle d x l = ground arith

bget_buf-BufOutcome_example : BufOutcome 1 9 two_bufs (bget_buf 1 9 two_bufs)
bget_buf-BufOutcome_example = bget_buf-BufOutcome 1 9 two_bufs (omega arith) two_bufs-IsSingle

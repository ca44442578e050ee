-- ===== src/Log.antt =====
-- log.c: the redo log. A block is its 128 words of 32 bits; `cache b` is what `bread(log.dev, b)`
-- gives, and `bwrite` carries it to the disk. `power` counts the block writes that still take effect:
-- a crash after k writes is a run with `power` k, whose last disk is what the machine restarts from.
pub mod Install
pub mod Recover
pub mod Commit
pub mod Crash
pub mod Ops
use operating_systems_assign.Base.{Bool, false, if◌then◌else◌, ltb, suc, zero, ℕ, ◌+◌, ◌-◌, ◌==◌}

abbrev pub Block : Type 0
Block = ℕ → ℕ

abbrev pub logsize : ℕ
logsize = 30

abbrev pub maxopblocks : ℕ
maxopblocks = 10

-- struct log without its spinlock and device; `n` and `block` are the header `lh`
pub record Log : Type 0 where
  pub start : ℕ
  pub size : ℕ
  pub outstanding : ℕ
  pub committing : Bool
  pub n : ℕ
  pub block : ℕ → ℕ
  pub cache : ℕ → Block
  pub disk : ℕ → Block
  pub power : ℕ

-- a table of blocks with the block `b` changed
abbrev pub put {ℓ} : {A : Type ℓ} → (ℕ → A) → ℕ → A → ℕ → A
put f b v x = if x == b then v else f x

-- bwrite of the buffer of block `b`
unfoldable pub bwrite : ℕ → Log → Log
bwrite b s = record s {
  disk = if s.power == 0 then s.disk else put s.disk b (s.cache b);
  power = s.power - 1;
}

-- a buffer's data changed, in the cache alone
abbrev pub fill : ℕ → Block → Log → Log
fill b v s = record s { cache = put s.cache b v }

-- the loop of `install_trans` from `tail` on, for `m` rounds
unfoldable pub install_from : ℕ → ℕ → Log → Log
unfolding bwrite
install_from tail zero s = s
install_from tail (suc m) s =
    install_from (suc tail) m
      (bwrite (s.block tail) (fill (s.block tail) (s.cache (s.start + tail + 1)) s))

unfoldable pub install_trans : Log → Log
install_trans s = install_from 0 s.n s

-- the header block as `write_head` fills it: the words beyond the `n` block numbers are left
abbrev pub head_block : ℕ → (ℕ → ℕ) → Block → Block
head_block n block old zero = n
head_block n block old (suc i) = if ltb i n then block i else old (suc i)

unfoldable pub write_head : Log → Log
unfolding bwrite
write_head s = bwrite s.start (fill s.start (head_block s.n s.block (s.cache s.start)) s)

unfoldable pub read_head : Log → Log
read_head s = record s {
  n = s.cache s.start 0;
  block = λ i. if ltb i (s.cache s.start 0) then s.cache s.start (suc i) else s.block i;
}

-- the loop of `write_log` from `tail` on, for `m` rounds
unfoldable pub write_from : ℕ → ℕ → Log → Log
unfolding bwrite
write_from tail zero s = s
write_from tail (suc m) s =
    write_from (suc tail) m
      (bwrite (s.start + tail + 1) (fill (s.start + tail + 1) (s.cache (s.block tail)) s))

unfoldable pub write_log : Log → Log
write_log s = write_from 0 s.n s

unfoldable pub recover_from_log : Log → Log
recover_from_log s = write_head (record (install_trans (read_head s)) { n = 0 })

unfoldable pub commit : Log → Log
commit s =
    if ltb 0 s.n
    then write_head (record (install_trans (write_head (write_log s))) { n = 0 })
    else s

-- The machine that starts from a disk: the cache holds what the disk holds, and `initlog` has read
-- the place and size of the log from the super block.
abbrev pub boot : Log → ℕ → Log
boot s power = record {
  start = s.start;
  size = s.size;
  outstanding = 0;
  committing = false;
  n = 0;
  block = λ i. 0;
  cache = s.disk;
  disk = s.disk;
  power = power;
}

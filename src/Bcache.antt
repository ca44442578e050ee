-- ===== src/Bcache.antt =====
-- bio.c: the buffer cache. The list has the buffers from `bcache.head.next` on, the most recently used
-- one first; `slot` is the buffer's place in `bcache.buf`, which tells it from the others. The part of
-- a routine under `bcache.lock` is one step.
pub mod Copies
pub mod Taken
use operating_systems_assign.Base.{
  Bool, List, Option, [], false, if◌then◌else◌, none, not, some, ℕ, ◌%◌, ◌&&◌, ◌+◌, ◌==◌, ◌∷◌,
}
use operating_systems_assign.CString.{Bytes}
use operating_systems_assign.Kernel.{Cmd, Run, done, panics, sleeps, and_then}
use operating_systems_assign.SleepLock.{SleepLock, acquiresleep, holdingsleep, releasesleep}

-- struct buf
pub record Buf : Type 0 where
  pub slot : ℕ
  pub valid : Bool
  pub dirty : Bool
  pub dev : ℕ
  pub blockno : ℕ
  pub lock : SleepLock
  pub refcnt : ℕ
  pub bytes : Bytes

-- the buffer is for the block
abbrev pub holds_block : ℕ → ℕ → Buf → Bool
holds_block dev blockno b = b.dev == dev && b.blockno == blockno

-- no one uses the buffer, and the log does not need it
abbrev pub may_recycle : Buf → Bool
may_recycle b = b.refcnt == 0 && not b.dirty

-- a list with one buffer changed, and the place of this buffer
abbrev pub behind : Buf → Option (List Buf × ℕ) → Option (List Buf × ℕ)
behind b none = none
behind b (some (bs, slot)) = some (b ∷ bs, slot)

-- the first loop of `bget`: the buffer of the block, with one reference more
unfoldable pub find_cached : ℕ → ℕ → List Buf → Option (List Buf × ℕ)
find_cached dev blockno [] = none
find_cached dev blockno (b ∷ bs) =
    let later = behind b (find_cached dev blockno bs) in
    if holds_block dev blockno b
    then some (record b { refcnt = (b.refcnt + 1) % 4294967296 } ∷ bs, b.slot)
    else later

-- the unused buffer `b` if none is left behind it
abbrev pub recycle_last : ℕ → ℕ → Buf → List Buf → Option (List Buf × ℕ) → Option (List Buf × ℕ)
recycle_last dev blockno b bs (some (cs, slot)) = some (b ∷ cs, slot)
recycle_last dev blockno b bs none =
    if may_recycle b
    then some (
      record b { dev = dev; blockno = blockno; valid = false; dirty = false; refcnt = 1 } ∷ bs,
      b.slot,
    )
    else none

-- the second loop of `bget`, from the end of the list: the least recently used buffer that is unused
unfoldable pub recycle : ℕ → ℕ → List Buf → Option (List Buf × ℕ)
recycle dev blockno [] = none
recycle dev blockno (b ∷ bs) = recycle_last dev blockno b bs (recycle dev blockno bs)

abbrev pub take_recycled : Option (List Buf × ℕ) → Run (List Buf) ℕ
take_recycled none = panics
take_recycled (some (bs, slot)) = done slot bs

abbrev pub take_cached : Option (List Buf × ℕ) → Run (List Buf) ℕ → Run (List Buf) ℕ
take_cached none r = r
take_cached (some (bs, slot)) r = done slot bs

-- `bget` as far as it holds `bcache.lock`: the buffer, which has a reference now
unfoldable pub bget_buf : ℕ → ℕ → Cmd (List Buf) ℕ
bget_buf dev blockno bs =
    take_cached (find_cached dev blockno bs) (take_recycled (recycle dev blockno bs))

-- the change `f` of the buffer `slot`
abbrev pub change_buf : ℕ → (Buf → Buf) → List Buf → List Buf
change_buf slot f [] = []
change_buf slot f (b ∷ bs) =
    let later = b ∷ change_buf slot f bs in if b.slot == slot then f b ∷ bs else later

-- the buffer `slot`, and the others
unfoldable pub take_out : ℕ → List Buf → Option (Buf × List Buf)
take_out slot [] = none
take_out slot (b ∷ bs) =
    let later = add b (take_out slot bs) in if b.slot == slot then some (b, bs) else later
  where
    add : Buf → Option (Buf × List Buf) → Option (Buf × List Buf)
    add b none = none
    add b (some (c, cs)) = some (c, b ∷ cs)

-- a change of the lock of the buffer `slot`
abbrev pub on_buf_lock :
    ℕ → (SleepLock → Run SleepLock (Unit {0})) → Option (Buf × List Buf) → Cmd (List Buf) (Unit {0})
on_buf_lock slot f none bs = panics
on_buf_lock slot f (some (b, others)) bs = set_lock (f b.lock)
  where
    set_lock : Run SleepLock (Unit {0}) → Run (List Buf) (Unit {0})
    set_lock (done a lk) = done tt (change_buf slot (λ c. record c { lock = lk }) bs)
    set_lock sleeps = sleeps
    set_lock panics = panics

unfoldable pub bget : ℕ → ℕ → ℕ → Cmd (List Buf) ℕ
bget pid dev blockno bs = and_then (bget_buf dev blockno bs) (λ slot cs.
    and_then (on_buf_lock slot (acquiresleep pid) (take_out slot cs) cs) (λ _ ds. done slot ds))

-- `brelse` once the lock is let go, for the buffer and the others
abbrev pub drop_buf : ℕ → List Buf → Option (Buf × List Buf) → Run (List Buf) (Unit {0})
drop_buf slot bs none = panics
drop_buf slot bs (some (b, others)) =
    let n = (b.refcnt + 4294967295) % 4294967296 in
    if n == 0
    then done tt (record b { refcnt = n } ∷ others)
    else done tt (change_buf slot (λ c. record c { refcnt = n }) bs)

abbrev pub is_held : ℕ → Option (Buf × List Buf) → Bool
is_held pid none = false
is_held pid (some (b, others)) = holdingsleep pid b.lock

unfoldable pub brelse : ℕ → ℕ → Cmd (List Buf) (Unit {0})
brelse pid slot bs =
    if not (is_held pid (take_out slot bs))
    then panics
    else and_then (on_buf_lock slot releasesleep (take_out slot bs) bs)
        (λ _ cs. drop_buf slot cs (take_out slot cs))

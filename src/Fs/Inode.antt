-- ===== src/Fs/Inode.antt =====
-- fs.c: the inodes on the disk and in the cache: `iget`, `idup`, `ilock`, `iunlock`, `iput` and
-- `ialloc`. The spinlock `icache.lock` makes the parts under it one step each. Who drops
-- a reference holds one, so that `ref` is at least 1 there.
pub mod Dinode
pub mod Cache
use operating_systems_assign.Base.{
  Bool, List, Option, [], false, get_or, if◌then◌else◌, ltb, none, not, set, some, suc, true, ℕ,
  ◌%◌, ◌&&◌, ◌*◌, ◌+◌, ◌-◌, ◌==◌, ◌||◌, ◌∷◌,
}
use operating_systems_assign.CString.{Bytes}
use operating_systems_assign.Kernel.{Cmd, Run, and_then, done, panics, sleeps}
use operating_systems_assign.SleepLock.{SleepLock, acquiresleep, holdingsleep, releasesleep}
use operating_systems_assign.Fs.{Disk, Super}
use operating_systems_assign.Fs.File.{Inode, View, iblock, itrunc, iupdate}

-- struct inode: its place in the cache, and the inode itself
pub record Slot : Type 0 where
  pub dev : ℕ
  pub ref : ℕ
  pub lock : SleepLock
  pub valid : Bool
  pub ip : Inode

pub record Icache : Type 0 where
  pub disk : Disk
  pub inodes : List Slot

abbrev empty_inode : Inode
empty_inode = record {
  inum = 0;
  perm = 0;
  type = 0;
  major = 0;
  minor = 0;
  nlink = 0;
  size = 0;
  addrs = λ _. 0;
  owner = 0;
}

-- an entry of the cache as it starts
abbrev pub no_slot : Slot
no_slot = record {
  dev = 0;
  ref = 0;
  lock = record { locked = false; pid = 0 };
  valid = false;
  ip = empty_inode;
}

abbrev pub slot_at : Icache → ℕ → Slot
slot_at s i = get_or s.inodes i no_slot

abbrev pub put_slot : ℕ → Slot → Icache → Icache
put_slot i e s = record s { inodes = set s.inodes i e }

-- the number at the byte `k`, low byte first
abbrev pub short_from : Bytes → ℕ → ℕ
short_from v k = v k + 256 * v (k + 1)

abbrev pub word_from : Bytes → ℕ → ℕ
word_from v k = v k + 256 * (v (k + 1) + 256 * (v (k + 2) + 256 * v (k + 3)))

-- the inode `inum` as the block `v` has it
unfoldable pub read_dinode : ℕ → Bytes → Inode
read_dinode inum v =
    let o = inum % 8 * 64 in
    record {
      inum = inum;
      perm = v o;
      type = v (o + 1);
      major = short_from v (o + 2);
      minor = short_from v (o + 4);
      nlink = short_from v (o + 6);
      size = word_from v (o + 8);
      addrs = λ j. word_from v (o + 12 + 4 * j);
      owner = word_from v (o + 60);
    }

-- a number found on the way, or the next one
abbrev pub first_of : Option ℕ → ℕ → Bool → Option ℕ
first_of (some i) j b = some i
first_of none j b = if b then some j else none

-- the loop of `iget` from the entry `i` on: an entry for the inode, or else the empty one
pub data Seen : Type 0 where
  cached : ℕ → Seen
  missing : Option ℕ → Seen

unfoldable pub find_inode : ℕ → ℕ → ℕ → Option ℕ → List Slot → Seen
find_inode dev inum i empty [] = missing empty
find_inode dev inum i empty (e ∷ es) =
    let later = find_inode dev inum (suc i) (first_of empty i (e.ref == 0)) es in
    if ltb 0 e.ref && e.dev == dev && e.ip.inum == inum then cached i else later

-- what `iget` does with the outcome of its loop
abbrev pub take_seen : ℕ → ℕ → Icache → Seen → Run Icache ℕ
take_seen dev inum s (cached i) =
    let e = slot_at s i in done i (put_slot i (record e { ref = e.ref + 1 }) s)
take_seen dev inum s (missing none) = panics
take_seen dev inum s (missing (some i)) =
    let e = slot_at s i in
    done i (
      put_slot i (record e { dev = dev; ip = record e.ip { inum = inum }; ref = 1; valid = false })
        s)

unfoldable pub iget : ℕ → ℕ → Cmd Icache ℕ
iget dev inum s = take_seen dev inum s (find_inode dev inum 0 none s.inodes)

unfoldable pub idup : ℕ → Cmd Icache ℕ
idup i s = let e = slot_at s i in done i (put_slot i (record e { ref = e.ref + 1 }) s)

module _ {A : Type 0} where
  -- a routine on the lock of the entry `i`
  abbrev pub on_lock : ℕ → Icache → Run SleepLock A → Run Icache A
  on_lock i s (done a lk) = done a (put_slot i (record (slot_at s i) { lock = lk }) s)
  on_lock i s sleeps = sleeps
  on_lock i s panics = panics

  -- a routine on the contents of the entry `i`
  abbrev pub on_view : ℕ → Icache → Run View A → Run Icache A
  on_view i s (done a v) =
      done a (put_slot i (record (slot_at s i) { ip = v.ip }) (record s { disk = v.disk }))
  on_view i s sleeps = sleeps
  on_view i s panics = panics

abbrev pub view_of : ℕ → Icache → View
view_of i s = record { disk = s.disk; ip = (slot_at s i).ip }

-- the inode of the entry `i` read from the disk, unless it is there
unfoldable pub load : Super → ℕ → Cmd Icache (Unit {0})
load sb i s =
    let e = slot_at s i in
    let ip = read_dinode e.ip.inum (s.disk (iblock sb e.ip.inum)) in
    if e.valid
    then done tt s
    else if ip.type == 0
    then panics
    else done tt (put_slot i (record e { ip = ip; valid = true }) s)

unfoldable pub ilock : ℕ → Super → Option ℕ → Cmd Icache (Unit {0})
ilock pid sb none s = panics
ilock pid sb (some i) s =
    if ltb (slot_at s i).ref 1
    then panics
    else and_then (on_lock i s (acquiresleep pid (slot_at s i).lock)) (λ _ t. load sb i t)

unfoldable pub iunlock : ℕ → Option ℕ → Cmd Icache (Unit {0})
iunlock pid none s = panics
iunlock pid (some i) s =
    if not (holdingsleep pid (slot_at s i).lock) || ltb (slot_at s i).ref 1
    then panics
    else on_lock i s (releasesleep (slot_at s i).lock)

-- `iput` with the lock of the entry held: an inode without links and other references is freed
unfoldable pub free_unused : Super → ℕ → Cmd Icache (Unit {0})
free_unused sb i s =
    let e = slot_at s i in
    if e.valid && e.ip.nlink == 0 && e.ref == 1
    then and_then
        (on_view i s (
          and_then (itrunc sb (view_of i s))
            (λ _ v. iupdate sb (record v { ip = record v.ip { type = 0 } }))))
        (λ _ t. done tt (put_slot i (record (slot_at t i) { valid = false }) t))
    else done tt s

unfoldable pub iput : ℕ → Super → ℕ → Cmd Icache (Unit {0})
iput pid sb i s = and_then (on_lock i s (acquiresleep pid (slot_at s i).lock)) (λ _ t.
    and_then (free_unused sb i t) (λ _ u.
      and_then (on_lock i u (releasesleep (slot_at u i).lock))
        (λ _ w. let e = slot_at w i in done tt (put_slot i (record e { ref = e.ref - 1 }) w))))

unfoldable pub iunlockput : ℕ → Super → ℕ → Cmd Icache (Unit {0})
iunlockput pid sb i s = and_then (iunlock pid (some i) s) (λ _ t. iput pid sb i t)

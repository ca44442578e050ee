-- ===== src/Permission.antt =====
-- fs.c and sysfile.c: who may read, write, execute and chmod a file. `&` with a power of 2 is written
-- as a division and a remainder.
pub mod Access
use operating_systems_assign.Base.{
  Option, Bool, false, if◌then◌else◌, none, not, some, true, ℕ, ◌%◌, ◌&&◌, ◌/◌, ◌==◌, ◌||◌,
}

abbrev pub t_dir : ℕ
t_dir = 1

abbrev pub t_dev : ℕ
t_dev = 3

abbrev pub root_uid : ℕ
root_uid = 1

-- the fields of struct inode that the checks read
pub record Inode : Type 0 where
  pub type : ℕ
  pub owner : ℕ
  pub perm : ℕ

-- `perm & mask` is not 0, for the mask that is a power of 2
abbrev pub has_bit : ℕ → ℕ → Bool
has_bit mask perm = perm / mask % 2 == 1

unfoldable pub has_own : ℕ → Inode → Bool
has_own uid ip = uid == ip.owner || uid == root_uid

unfoldable pub has_read_permission : ℕ → Inode → Bool
unfolding has_own
has_read_permission uid ip =
    if ip.type == t_dev
    then true
    else if has_own uid ip
    then has_bit 32 ip.perm
    else has_bit 4 ip.perm

unfoldable pub has_write_permission : ℕ → Inode → Bool
unfolding has_own
has_write_permission uid ip =
    if ip.type == t_dev
    then true
    else if has_own uid ip
    then has_bit 16 ip.perm
    else has_bit 2 ip.perm

unfoldable pub has_execute_permission : ℕ → Inode → Bool
unfolding has_own
has_execute_permission uid ip =
    if ip.type == t_dev
    then true
    else if has_own uid ip
    then has_bit 8 ip.perm
    else has_bit 1 ip.perm

-- `sys_chmod` of the inode that `namei` found, for the mode's 32 bits; none is -1. MODE_ALL is 63.
unfoldable pub sys_chmod : ℕ → ℕ → Inode → Option Inode
unfolding has_own
sys_chmod uid mode ip = if has_own uid ip then some (record ip { perm = mode % 64 }) else none

-- `sys_open` of an inode that `namei` found, without O_CREATE: whether it comes to `filealloc`
unfoldable pub open_allowed : ℕ → ℕ → Inode → Bool
unfolding has_read_permission has_write_permission
open_allowed uid omode ip =
    if ip.type == t_dir && not (omode == 0)
    then false
    else if (omode == 0 || omode == 2) && not (has_read_permission uid ip)
    then false
    else if (omode == 1 || omode == 2) && not (has_write_permission uid ip)
    then false
    else true

-- `f->readable` and `f->writable` of the file that `sys_open` returns
unfoldable pub file_readable : ℕ → Bool
file_readable omode = not (has_bit 1 omode)

unfoldable pub file_writable : ℕ → Bool
file_writable omode = has_bit 1 omode || has_bit 2 omode

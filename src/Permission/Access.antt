-- ===== src/Permission/Access.antt =====
-- fs.c and sysfile.c: the permission checks against the octal digits of a mode.
use operating_systems_assign.Base.{
  none, some, Option, Bool, Bool-cases, arith, false, if◌then◌else◌, inl, inr, leb, refl, true, ℕ,
  ◌%◌, ◌/◌, ◌<◌, ◌==◌, ◌||◌, ◌≡◌, ◌≢◌, ◌⊎◌, not,
}
use operating_systems_assign.Permission.{
  has_own, sys_chmod, Inode, file_readable, file_writable, has_execute_permission,
  has_read_permission, has_write_permission, open_allowed, root_uid, t_dev, t_dir,
}

-- The digit of the mode that counts for a user: the first for the owner and root, else the second.
-- In a digit, 4 is read, 2 is write and 1 is execute.
abbrev pub digit : ℕ → ℕ → ℕ → ℕ
digit uid owner mode = if uid == owner || uid == root_uid then mode / 8 % 8 else mode % 8

abbrev pub may_read : ℕ → Bool
may_read d = leb 4 d

abbrev pub may_write : ℕ → Bool
may_write d = leb 2 (d % 4)

abbrev pub may_execute : ℕ → Bool
may_execute d = d % 2 == 1

checks-digit :
    (mode who : ℕ) (ip : Inode)
    → (ip.type == t_dev) ≡ false
    → (has_read_permission who (record ip { perm = mode % 64 })
        ≡ may_read (digit who ip.owner mode))
      × (has_write_permission who (record ip { perm = mode % 64 })
          ≡ may_write (digit who ip.owner mode))
      × (has_execute_permission who (record ip { perm = mode % 64 })
          ≡ may_execute (digit who ip.owner mode))
unfolding has_own has_read_permission has_write_permission has_execute_permission
checks-digit mode who ip file = elim (Bool-cases (who == ip.owner || who == root_uid)) [
  | inl e ↦ simp (file, e) (ground arith, ground arith, ground arith)
  | inr e ↦ simp (file, e) (ground arith, ground arith, ground arith)
]

-- What `sys_chmod` of the mode `mode` by `uid` is to come to, seen by the user `who`: the caller is the
-- owner or root and the checks are those of the digit, or the caller is neither and nothing changes.
abbrev pub ChmodOutcome : ℕ → ℕ → ℕ → Inode → Option Inode → Type 0
ChmodOutcome uid mode who ip (some new) =
    (uid ≡ ip.owner ⊎ (uid ≡ root_uid))
    × (has_read_permission who new ≡ may_read (digit who ip.owner mode))
    × (has_write_permission who new ≡ may_write (digit who ip.owner mode))
    × (has_execute_permission who new ≡ may_execute (digit who ip.owner mode))
ChmodOutcome uid mode who ip none = (uid ≢ ip.owner) × (uid ≢ root_uid)

-- `sys_chmod` of a file that is no device succeeds only for the owner and root, and fails only for the
-- others. After it the three checks of any user are those of the user's digit of the mode.
pub sys_chmod-digit :
    (uid mode who : ℕ) (ip : Inode)
    → (ip.type == t_dev) ≡ false
    → ChmodOutcome uid mode who ip (sys_chmod uid mode ip)
unfolding sys_chmod has_own
sys_chmod-digit uid mode who ip file = elim (Bool-cases (uid == ip.owner || uid == root_uid)) [
  | inl own ↦
      (let (r, w, x) = checks-digit mode who ip file in
        simp (own) (owner_or_root uid ip.owner own, r, w, x))
  | inr other ↦ simp (other) (λ e. ground arith, λ e. ground arith)
]
  where
    owner_or_root : (uid o : ℕ) → (uid == o || uid == root_uid) ≡ true → uid ≡ o ⊎ (uid ≡ root_uid)
    owner_or_root uid o h = elim (Bool-cases (uid == o)) [
      | inl e ↦ inl (ground arith)
      | inr e ↦ inr (ground arith)
    ]

-- A file opened in one of the three modes of fcntl.h is readable or writable only for a user who has
-- the permission.
pub open_allowed-permission :
    (uid omode : ℕ) (ip : Inode)
    → omode < 3
    → open_allowed uid omode ip ≡ true
    → ((not (file_readable omode) || has_read_permission uid ip) ≡ true)
      × ((not (file_writable omode) || has_write_permission uid ip) ≡ true)
unfolding open_allowed file_readable file_writable
open_allowed-permission uid omode ip l e = (ground arith, ground arith)

-- The mode O_WRONLY | O_RDWR gets past both checks, for any user and any file that is no directory,
-- and gives a writable file.
pub open_allowed-both :
    (uid : ℕ) (ip : Inode)
    → (ip.type == t_dir) ≡ false
    → (open_allowed uid 3 ip ≡ true) × (file_writable 3 ≡ true)
unfolding open_allowed file_writable
open_allowed-both uid ip e = (simp (e) refl, refl)

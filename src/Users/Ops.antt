-- ===== src/Users/Ops.antt =====
-- usermanage.c: the routines that read and change the table of users. One that may find the lock
-- taken sleeps; a failed write or read of /passwd panics.
use operating_systems_assign.Base.{
  Bool, List, [], if◌then◌else◌, none, not, set, some, true, ℕ, ◌%◌, ◌*◌, ◌+◌, ◌==◌, ◌^◌, ◌||◌, ◌∷◌,
  Option,
}
use operating_systems_assign.Base.Int.{negsuc, pos, ℤ}
use operating_systems_assign.Kernel.{Cmd, done, get, modify, panic_if, pure, ◌>>=◌, ◌>>◌}
use operating_systems_assign.SleepLock.{acquiresleep, initsleeplock, releasesleep}
use operating_systems_assign.CString.{Bytes, strncmp, strncpy, view}
use operating_systems_assign.Users.{
  FileOps, User, Users, clear_field, copy_field, find_user_with_uid, find_user_with_username,
  is_valid_passwd, is_valid_username, is_zero, nuser, on_file, on_lock, root_uid, same_name,
  scan_free, table_bytes, table_of_bytes, uint_bytes, uint_of_bytes, user_at, user_size,
  username_maxlen,
}

-- The condition `r != n` of a call that is to move `n` bytes.
abbrev pub short : ℤ → ℕ → Bool
short (pos r) n = not (r == n)
short (negsuc r) n = true

-- utable[1..] as `create_usertable` clears it
clear_users : List User → List User
clear_users [] = []
clear_users (u ∷ us) =
    record { username = clear_field u.username; passwd = clear_field u.passwd; uid = 0 }
    ∷ clear_users us

-- "root" and "0000"
abbrev pub root_name : Bytes
root_name = view (b'r' ∷ b'o' ∷ b'o' ∷ b't' ∷ 0 ∷ [])

abbrev pub root_passwd : Bytes
root_passwd = view (b'0' ∷ b'0' ∷ b'0' ∷ b'0' ∷ 0 ∷ [])

set_root : List User → List User
set_root [] = []
set_root (u ∷ us) =
    record {
      username = copy_field u.username root_name;
      passwd = copy_field u.passwd root_passwd;
      uid = root_uid;
    }
    ∷ us

-- the table that `create_usertable` starts from
unfoldable pub fresh_table : List User → List User
unfolding clear_users set_root
fresh_table [] = []
fresh_table (u ∷ us) = set_root (u ∷ clear_users us)

module _ {F : Type 0} (ops : FileOps F) where
  open ops use {begin_op, ilock, iunlock, end_op, writei, readi, namei, create, set_mode}

  unfoldable pub write_usertable : Cmd (Users F) (Unit {0})
  write_usertable = do
    s ← get
    r ← on_file (writei (uint_bytes s.next_uid) 0)
    panic_if (short r 4)
    r ← on_file (writei (table_bytes s.utable) 4)
    panic_if (short r (user_size * nuser))

  unfoldable pub export_usertable : Cmd (Users F) (Unit {0})
  unfolding write_usertable
  export_usertable = do
    on_file begin_op
    on_file ilock
    write_usertable
    on_file iunlock
    on_file end_op

  unfoldable pub create_usertable : Cmd (Users F) (Unit {0})
  unfolding write_usertable fresh_table
  create_usertable = do
    modify (λ s. record s { next_uid = root_uid + 1; utable = fresh_table s.utable })
    made ← on_file create
    panic_if (not made)
    on_file (set_mode (32 + 16) root_uid)
    write_usertable

  -- what `readi` puts into `next_uid` and `utable`
  unfoldable pub read_usertable : Cmd (Users F) (Unit {0})
  read_usertable = do
    on_file ilock
    (r, b) ← on_file (readi 0 4)
    panic_if (short r 4)
    modify (λ s. record s { next_uid = uint_of_bytes b })
    (r, b) ← on_file (readi 4 (user_size * nuser))
    panic_if (short r (user_size * nuser))
    modify (λ s. record s { utable = table_of_bytes nuser b })

  -- the rest of `init_usertable`, when the table is not there yet
  unfoldable pub init_first : Cmd (Users F) ℤ
  unfolding create_usertable read_usertable initsleeplock
  init_first = do
    on_file begin_op
    found ← on_file namei
    if found then read_usertable else create_usertable
    on_file iunlock
    on_file end_op
    modify (λ s. record s { initialized = true; lock = initsleeplock })
    pure (pos 0)

  unfoldable pub init_usertable : Cmd (Users F) ℤ
  init_usertable s = if s.initialized then done (negsuc 0) s else init_first s

  module _ (pid limit : ℕ) where
    -- the branch behind the search for a free entry: `empty` is its index
    unfoldable pub fill_user : Bytes → Bytes → ℕ → Cmd (Users F) ℕ
    unfolding export_usertable
    fill_user username passwd i = do
      modify (λ s. record s {
        utable = set s.utable i (record {
          username = copy_field (user_at s.utable i).username username;
          passwd = copy_field (user_at s.utable i).passwd passwd;
          uid = s.next_uid;
        });
        next_uid = (s.next_uid + 1) % 2 ^ 32;
      })
      export_usertable
      on_lock releasesleep
      s ← get
      pure (user_at s.utable i).uid

    -- what follows the search, by its outcome
    unfoldable pub add_scanned : Bytes → Bytes → Option (Option ℕ) → Cmd (Users F) ℕ
    unfolding fill_user
    add_scanned username passwd none = do on_lock releasesleep; pure 0
    add_scanned username passwd (some none) = do on_lock releasesleep; pure 0
    add_scanned username passwd (some (some i)) = fill_user username passwd i

    unfoldable pub add_user : Bytes → Bytes → Cmd (Users F) ℕ
    add_user username passwd =
        if not (is_valid_username limit username) || not (is_valid_passwd limit passwd)
        then pure 0
        else do
          on_lock (acquiresleep pid)
          s ← get
          add_scanned username passwd (scan_free s.utable username 0 none)

    unfoldable pub getuid_found : Bytes → Option ℕ → Cmd (Users F) ℕ
    getuid_found passwd none = do on_lock releasesleep; pure 0
    getuid_found passwd (some i) = do
      s ← get
      if not (same_name (user_at s.utable i).passwd passwd)
          then (do on_lock releasesleep; pure 0)
          else do on_lock releasesleep; s ← get; pure (user_at s.utable i).uid

    unfoldable pub getuid : Bytes → Bytes → Cmd (Users F) ℕ
    unfolding getuid_found
    getuid username passwd =
        if not (is_valid_username limit username) || not (is_valid_passwd limit passwd)
        then (do on_lock releasesleep; pure 0)
        else do
          on_lock (acquiresleep pid)
          s ← get
          getuid_found passwd (find_user_with_username s.utable username)

    -- what `delete_user` does to the entry `i`
    unfoldable pub clear_user : ℕ → Cmd (Users F) ℤ
    unfolding export_usertable
    clear_user i = do
      modify (λ s. record s {
        utable = set s.utable i (record {
          username = clear_field (user_at s.utable i).username;
          passwd = clear_field (user_at s.utable i).passwd;
          uid = 0;
        });
      })
      export_usertable
      on_lock releasesleep
      pure (pos 0)

    unfoldable pub delete_found : Option ℕ → Cmd (Users F) ℤ
    unfolding clear_user
    delete_found none = do on_lock releasesleep; pure (negsuc 0)
    delete_found (some i) = clear_user i

    unfoldable pub delete_user : Bytes → Cmd (Users F) ℤ
    delete_user username =
        if not (is_valid_username limit username)
          || is_zero (strncmp root_name username username_maxlen)
        then pure (negsuc 0)
        else do
          on_lock (acquiresleep pid)
          s ← get
          delete_found (find_user_with_username s.utable username)

    -- The result, and the caller's buffer.
    unfoldable pub get_username_with_uid : ℕ → Bytes → Cmd (Users F) (ℤ × Bytes)
    get_username_with_uid uid buffer = do
      on_lock (acquiresleep pid)
      s ← get
      elim (find_user_with_uid s.utable uid) [
        | none ↦ do on_lock releasesleep; pure (negsuc 0, buffer)
        | some i ↦ do
          on_lock releasesleep
          pure (pos 0, strncpy buffer (view (user_at s.utable i).username) username_maxlen)
      ]

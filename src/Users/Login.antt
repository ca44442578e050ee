-- ===== src/Users/Login.antt =====
-- usermanage.c: `add_user`, `delete_user` and `getuid` as a whole: what they return, what they leave
-- in the table and in /passwd, and that they keep the table sound.
use operating_systems_assign.Base.{
  All-set, List, false, length, length-set, set, ℕ, ◌%◌, ◌+◌, ◌<◌, ◌^◌, ◌∙◌, ◌≡◌, ap, arith,
  get_or-set_self, none, refl, true, ◌&&◌, Option, inl, inr, some, ◌-◌, ◌≤◌,
}
use operating_systems_assign.Kernel.{done}
use operating_systems_assign.Kernel.Ends.{Ends, Ends-bind, ends, Ends-mono}
use operating_systems_assign.SleepLock.{SleepLock, releasesleep, acquiresleep}
use operating_systems_assign.CString.{Bytes, memset, strncpy, view}
use operating_systems_assign.Users.{
  FileOps, User, Users, clear_field, copy_field, user_at, find_user_with_username, is_valid_passwd,
  is_valid_username, no_user, scan_free,
}
use operating_systems_assign.Users.Layout.{IsUser}
use operating_systems_assign.Users.Ops.{fill_user, add_user, add_scanned}
use operating_systems_assign.Users.Store.{FileLaws, Holds, IsTable, export_usertable_lem}
use operating_systems_assign.Users.Table.{
  length-array, scan_free-free, scan_free-full, scan_free-taken,
}

abbrev pub free_lock : SleepLock
free_lock = record { locked = false; pid = 0 }

module _ {F : Type 0} (ops : FileOps F) (laws : FileLaws ops) where
  open laws use {content, Idle}

  -- Nobody holds the lock, no transaction of the process runs, and the table is well formed.
  pub record Ready (s : Users F) : Type 0 where
    pub idle : Idle s.file
    pub table : IsTable s.utable
    pub unlocked : s.lock ≡ free_lock

-- the user that `add_user` stores in the entry `i`
abbrev pub new_user : List User → ℕ → Bytes → Bytes → ℕ → User
new_user us i username passwd uid = record {
  username = copy_field (user_at us i).username username;
  passwd = copy_field (user_at us i).passwd passwd;
  uid = uid;
}

length-copy_field : (xs : List ℕ) (t : Bytes) → length (copy_field xs t) ≡ 16
unfolding copy_field
length-copy_field xs t = length-array 16 (strncpy (view xs) t 16)

pub length-clear_field : (xs : List ℕ) → length (clear_field xs) ≡ 16
unfolding clear_field
length-clear_field xs = length-array 16 (memset 0 (view xs) 0 16)

pub set-IsTable : (us : List User) (i : ℕ) (u : User) → IsTable us → IsUser u → IsTable (set us i u)
set-IsTable us i u t h = record {
  ten = length-set us i u ∙ t.ten;
  each = All-set IsUser us i u t.each h;
}

module _ {F : Type 0} (ops : FileOps F) (laws : FileLaws ops) (pid limit : ℕ) where
  open laws use {content, Idle}

  fill_user_lem :
      (s : Users F) (username passwd : Bytes) (i : ℕ)
      → Idle s.file
      → IsTable s.utable
      → s.next_uid < 2 ^ 32
      → i < length s.utable
      → Ends
          (λ r t.
            (r ≡ s.next_uid)
            × (t.utable ≡ set s.utable i (new_user s.utable i username passwd s.next_uid))
            × (t.next_uid ≡ (s.next_uid + 1) % 2 ^ 32)
            × Ready ops laws t
            × Holds (content t.file) t.next_uid t.utable)
          (fill_user ops pid limit username passwd i s)
  unfolding fill_user releasesleep
  fill_user_lem s username passwd i d t n h =
      let new = new_user s.utable i username passwd s.next_uid in
      let s1 = record s { utable = set s.utable i new; next_uid = (s.next_uid + 1) % 2 ^ 32 } in
      let user : IsUser new = record {
        username_16 = length-copy_field (user_at s.utable i).username username;
        passwd_16 = length-copy_field (user_at s.utable i).passwd passwd;
        uid_small = n;
      } in
      let t1 : IsTable s1.utable = set-IsTable s.utable i new t user in
      Ends-bind (export_usertable_lem ops laws s1 d t1) λ _ u (same, d1, m). rw same (
        ends (
          ap (λ (v : User). v.uid) (get_or-set_self s.utable i new no_user h),
          refl,
          refl,
          record { idle = d1; table = t1; unlocked = refl },
          m,
        ))

  -- the postcondition of a user added
  Added : Users F → Bytes → Bytes → ℕ → Users F → Type 0
  Added s username passwd r t =
      (r ≡ s.next_uid)
      × (t.next_uid ≡ (s.next_uid + 1) % 2 ^ 32)
      × ((i : ℕ) × (i < length s.utable)
          × ((user_at s.utable i).uid ≡ 0)
          × (t.utable ≡ set s.utable i (new_user s.utable i username passwd s.next_uid)))
      × Ready ops laws t
      × Holds (content t.file) t.next_uid t.utable

  add_scanned_lem :
      (s : Users F) (username passwd : Bytes) (k : ℕ) (o : Option (Option ℕ))
      → scan_free s.utable username 0 none ≡ o
      → Idle s.file
      → IsTable s.utable
      → s.next_uid < 2 ^ 32
      → find_user_with_username s.utable username ≡ none
      → k < length s.utable
      → (user_at s.utable k).uid ≡ 0
      → Ends (Added s username passwd) (add_scanned ops pid limit username passwd o s)
  unfolding add_scanned Added
  add_scanned_lem s username passwd k none e d t n new hk free =
      absurd (scan_free-taken s.utable username 0 none e new)
  add_scanned_lem s username passwd k (some none) e d t n new hk free =
      absurd (scan_free-full s.utable username e k hk free)
  add_scanned_lem s username passwd k (some (some i)) e d t n new hk free =
      let found : (0 ≤ i) × (i < 0 + length s.utable) × ((user_at s.utable (i - 0)).uid ≡ 0) =
        elim (scan_free-free s.utable username 0 none i e) [ inl c ↦ absurd (cc) | inr f ↦ f ] in
      let z : i - 0 ≡ i = omega arith in
      let hi : i < length s.utable = omega (arith, found.1) in
      Ends-mono (fill_user_lem s username passwd i d t n hi)
        λ r u (a, b, c, q, m). (a, c, (i, hi, rw z at (found.2), b), q, m)

  -- Whoever may be added: with the lock free, strings of legal length, a name that nobody has and a
  -- free entry, `add_user` returns `next_uid` and puts the user, with that uid, into an entry that
  -- was free; all other entries stay, `next_uid` is counted on, the lock is free again and /passwd
  -- holds the new table.
  pub add_user-new :
      (s : Users F) (username passwd : Bytes) (k : ℕ)
      → Ready ops laws s
      → s.next_uid < 2 ^ 32
      → is_valid_username limit username ≡ true
      → is_valid_passwd limit passwd ≡ true
      → find_user_with_username s.utable username ≡ none
      → k < length s.utable
      → (user_at s.utable k).uid ≡ 0
      → Ends
          (λ r t.
            (r ≡ s.next_uid)
            × (t.next_uid ≡ (s.next_uid + 1) % 2 ^ 32)
            × ((i : ℕ) × (i < length s.utable)
                × ((user_at s.utable i).uid ≡ 0)
                × (t.utable ≡ set s.utable i (new_user s.utable i username passwd s.next_uid)))
            × Ready ops laws t
            × Holds (content t.file) t.next_uid t.utable)
          (add_user ops pid limit username passwd s)
  unfolding add_user acquiresleep Added
  add_user-new s username passwd k r n vu vp fresh hk free =
      simp (vu, vp, r.unlocked)
        (add_scanned_lem (record s { lock = record { locked = true; pid = pid } }) username passwd k
          (scan_free s.utable username 0 none) refl r.idle r.table n fresh hk free)

  -- `add_user` refuses a string of illegal length without touching anything.
  pub add_user-invalid :
      (s : Users F) (username passwd : Bytes)
      → (is_valid_username limit username && is_valid_passwd limit passwd) ≡ false
      → add_user ops pid limit username passwd s ≡ done 0 s
  unfolding add_user
  add_user-invalid s username passwd h = ground arith

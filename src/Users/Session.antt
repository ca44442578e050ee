-- ===== src/Users/Session.antt =====
-- usermanage.c: what a user meets: a user added can log in, one deleted cannot, and the table stays
-- sound over both.
use operating_systems_assign.Users.Layout.{IsUser}
use operating_systems_assign.CString.Compare.{strncmp_complete}
use operating_systems_assign.Users.Table.{
  find-set, find-some, same_name-copy_field, Carries, SameString-sym, SameString-trans, find-none,
  is_zero-ne, none-find, same_name-SameString,
}
use operating_systems_assign.Base.{
  ap, arith, false, length, none, some, sym, true, ℕ, ◌&&◌, ◌+◌, ◌<◌, ◌^◌, ◌≡◌, ◌≢◌, Bool-cases,
  List, get_or-set_ne, get_or-set_self, inl, inr, length-set, refl, set, ◌==◌, ◌∙◌,
}
use operating_systems_assign.Base.Int.{pos}
use operating_systems_assign.Kernel.{done}
use operating_systems_assign.Kernel.Ends.{Ends, Ends-mono, Ends-bind, ends}
use operating_systems_assign.SleepLock.{acquiresleep, releasesleep}
use operating_systems_assign.CString.{Bytes, strncmp, view}
use operating_systems_assign.Users.{
  FileOps, Users, find_user_with_username, is_valid_passwd, is_valid_username, is_zero, same_name,
  user_at, User, clear_field, no_user,
}
use operating_systems_assign.Users.Ops.{
  add_user, clear_user, delete_user, getuid, root_name, delete_found,
}
use operating_systems_assign.Users.Store.{FileLaws, Holds, IsTable, export_usertable_lem}
use operating_systems_assign.Users.Sound.{IsSoundTable, Carries-same, IsSound-add, IsSound-clear}
use operating_systems_assign.Users.Login.{
  Ready, add_user-new, free_lock, length-clear_field, new_user, set-IsTable,
}

module _ {F : Type 0} (ops : FileOps F) (pid limit : ℕ) where
  unlocked_same : (s : Users F) → s.lock ≡ free_lock → record s { lock = free_lock } ≡ s
  unlocked_same s e = ap (λ l. record s { lock = l }) (sym e)

  getuid-found :
      (s : Users F) (username passwd : Bytes) (i : ℕ)
      → s.lock ≡ free_lock
      → is_valid_username limit username ≡ true
      → is_valid_passwd limit passwd ≡ true
      → find_user_with_username s.utable username ≡ some i
      → same_name (user_at s.utable i).passwd passwd ≡ true
      → getuid ops pid limit username passwd s ≡ done (user_at s.utable i).uid s
  unfolding getuid acquiresleep releasesleep
  getuid-found s username passwd i l vu vp f c =
      simp (vu, vp, l, f, c) (ap (λ t. done (user_at s.utable i).uid t) (unlocked_same s l))

  getuid-none :
      (s : Users F) (username passwd : Bytes)
      → s.lock ≡ free_lock
      → is_valid_username limit username ≡ true
      → is_valid_passwd limit passwd ≡ true
      → find_user_with_username s.utable username ≡ none
      → getuid ops pid limit username passwd s ≡ done 0 s
  unfolding getuid acquiresleep releasesleep
  getuid-none s username passwd l vu vp f =
      simp (vu, vp, l, f) (ap (λ t. done 0 t) (unlocked_same s l))

  -- A call of `getuid` with a user name or password of illegal length gives the lock up, whoever
  -- holds it: the caller never took it.
  pub getuid-invalid_unlocks :
      (s : Users F) (username passwd : Bytes)
      → (is_valid_username limit username && is_valid_passwd limit passwd) ≡ false
      → getuid ops pid limit username passwd s ≡ done 0 (record s { lock = free_lock })
  unfolding getuid releasesleep
  getuid-invalid_unlocks s username passwd h = ground arith

-- what `delete_user` leaves in the entry `i`
abbrev pub cleared : List User → ℕ → User
cleared us i = record {
  username = clear_field (user_at us i).username;
  passwd = clear_field (user_at us i).passwd;
  uid = 0;
}

-- The entry of a name other than root's is not root's entry.
not_root :
    (us : List User) (next : ℕ) (name : Bytes) (i : ℕ)
    → IsSoundTable us next
    → is_zero (strncmp root_name name 16) ≡ false
    → same_name (user_at us i).username name ≡ true
    → i ≢ 0
not_root us next name i s notroot c z =
    let c0 : same_name (user_at us 0).username name ≡ true = rw z at c in
    let e : strncmp root_name name 16 ≡ pos 0 = strncmp_complete root_name name 16 (
      SameString-trans root_name (view (user_at us 0).username) name 16
        (SameString-sym (view (user_at us 0).username) root_name 16
          (same_name-SameString (user_at us 0).username root_name s.root_named))
        (same_name-SameString (user_at us 0).username name c0)) in
    is_zero-ne e notroot

-- Once the only entry with the name is out of use, the name is not found.
find-cleared :
    (us : List User) (next : ℕ) (name : Bytes) (i : ℕ) (u : User)
    → IsSoundTable us next
    → find_user_with_username us name ≡ some i
    → u.uid ≡ 0
    → find_user_with_username (set us i u) name ≡ none
find-cleared us next name i u s f z =
    let (hi, c) = find-some us name i f in
    none-find (set us i u) name λ j h d. elim (Bool-cases (i == j)) [
      | inl e ↦
          let q : i ≡ j = ground arith in
          d.0 (
            ap (λ k. (user_at (set us i u) k).uid) (sym q)
            ∙ ap (λ (v : User). v.uid) (get_or-set_self us i u no_user hi)
            ∙ z)
      | inr ne ↦
          let at : user_at (set us i u) j ≡ user_at us j =
            get_or-set_ne us i j u no_user (ground arith) in
          let d' : Carries (user_at us j) name = rw at at d in
          absurd (
            ground (
              arith,
              s.names i j (hi, c.0) (omega (arith, length-set us i u), d'.0)
                  (Carries-same (user_at us i) (user_at us j) name c.1 d'.1),
            ))
    ]

module _ {F : Type 0} (ops : FileOps F) (laws : FileLaws ops) (pid limit : ℕ) where
  open laws use {content, Idle}

  -- Over a file system that keeps the laws: after `add_user` for a new name, with a free entry,
  -- `getuid` with that name and password returns the uid that `add_user` returned, and changes
  -- nothing.
  pub getuid-add_user :
      (s : Users F) (username passwd : Bytes) (k caller : ℕ)
      → Ready ops laws s
      → s.next_uid < 2 ^ 32
      → s.next_uid ≢ 0
      → is_valid_username limit username ≡ true
      → is_valid_passwd limit passwd ≡ true
      → find_user_with_username s.utable username ≡ none
      → k < length s.utable
      → (user_at s.utable k).uid ≡ 0
      → Ends
          (λ r t. (r ≢ 0) × (getuid ops caller limit username passwd t ≡ done r t))
          (add_user ops pid limit username passwd s)
  getuid-add_user s username passwd k caller r n nz vu vp fresh hk free =
      Ends-mono (add_user-new ops laws pid limit s username passwd k r n vu vp fresh hk free)
        λ uid t (a, b, (i, hi, fi, e), q, m).
          let new = new_user s.utable i username passwd s.next_uid in
          let self : user_at t.utable i ≡ new =
            ap (λ l. user_at l i) e ∙ get_or-set_self s.utable i new no_user hi in
          let found : find_user_with_username t.utable username ≡ some i =
            ap (λ l. find_user_with_username l username) e
            ∙ find-set s.utable username i new hi fresh
                (nz, same_name-copy_field (user_at s.utable i).username username) in
          let word : same_name (user_at t.utable i).passwd passwd ≡ true =
            ap (λ (u : User). same_name u.passwd passwd) self
            ∙ same_name-copy_field (user_at s.utable i).passwd passwd in
          (
            omega arith,
            getuid-found ops caller limit t username passwd i q.unlocked vu vp found word
                ∙ ap (λ r. done r t) (ap (λ (u : User). u.uid) self ∙ sym a),
          )

  -- Over a file system that keeps the laws, `add_user` of a new name, with a legal name and
  -- password, the lock free and a free entry, keeps the table sound, as long as `next_uid` does not
  -- wrap.
  pub add_user-IsSound :
      (s : Users F) (username passwd : Bytes) (k : ℕ)
      → Ready ops laws s
      → s.next_uid + 1 < 2 ^ 32
      → is_valid_username limit username ≡ true
      → is_valid_passwd limit passwd ≡ true
      → find_user_with_username s.utable username ≡ none
      → k < length s.utable
      → (user_at s.utable k).uid ≡ 0
      → IsSoundTable s.utable s.next_uid
      → Ends (λ r t. IsSoundTable t.utable t.next_uid) (add_user ops pid limit username passwd s)
  add_user-IsSound s username passwd k r n vu vp fresh hk free sound =
      Ends-mono
        (add_user-new ops laws pid limit s username passwd k r (omega arith) vu vp fresh hk free)
        λ uid t (a, b, (i, hi, fi, e), q, m).
          let new = new_user s.utable i username passwd s.next_uid in
          let count : t.next_uid ≡ s.next_uid + 1 = omega arith in
          rw (e, count)
            (IsSound-add s.utable s.next_uid i new sound hi username fi refl
              (same_name-copy_field (user_at s.utable i).username username)
              (find-none s.utable username fresh))

  -- Over a file system that keeps the laws, and with the lock free, `delete_user` of a name other
  -- than root's that the table has returns 0, keeps the table sound, stores it in /passwd, leaves
  -- every other entry, and from then on `getuid` returns 0 for that name and any password of legal
  -- length.
  pub delete_user-gone :
      (s : Users F) (username passwd : Bytes) (i caller : ℕ)
      → Ready ops laws s
      → s.next_uid < 2 ^ 32
      → is_valid_username limit username ≡ true
      → is_valid_passwd limit passwd ≡ true
      → is_zero (strncmp root_name username 16) ≡ false
      → find_user_with_username s.utable username ≡ some i
      → IsSoundTable s.utable s.next_uid
      → Ends
          (λ r t.
            (r ≡ pos 0)
            × IsSoundTable t.utable t.next_uid
            × ((j : ℕ) → i ≢ j → user_at t.utable j ≡ user_at s.utable j)
            × Ready ops laws t
            × Holds (content t.file) t.next_uid t.utable
            × (getuid ops caller limit username passwd t ≡ done 0 t))
          (delete_user ops pid limit username s)
  unfolding delete_user delete_found clear_user acquiresleep releasesleep
  delete_user-gone s username passwd i caller r n vu vp notroot f sound =
      let (hi, c) = find-some s.utable username i f in
      let old = user_at s.utable i in
      let gone = cleared s.utable i in
      let user : IsUser gone = record {
        username_16 = length-clear_field old.username;
        passwd_16 = length-clear_field old.passwd;
        uid_small = omega arith;
      } in
      let t1 : IsTable (set s.utable i gone) = set-IsTable s.utable i gone r.table user in
      let other : i ≢ 0 = λ z. not_root s.utable s.next_uid username i sound notroot c.1 z in
      let s1 = record s {
        lock = record { locked = true; pid = pid };
        utable = set s.utable i gone;
      } in
      simp (vu, notroot, r.unlocked, f)
        (Ends-bind (export_usertable_lem ops laws s1 r.idle t1) λ _ u (same, d1, m). rw same (
          ends (
            refl,
            IsSound-clear s.utable s.next_uid i gone sound hi refl other,
            (λ j ne. get_or-set_ne s.utable i j gone no_user ne),
            record { idle = d1; table = t1; unlocked = refl },
            m,
            getuid-none ops caller limit (record s1 { lock = free_lock; file = u.file }) username
                passwd refl vu vp (find-cleared s.utable s.next_uid username i gone sound f refl),
          )))

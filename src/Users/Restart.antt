-- ===== src/Users/Restart.antt =====
-- usermanage.c: the kernel that starts from the /passwd of another run has that run's users.
use mathlib.Core.List.{append-nil}
use operating_systems_assign.Base.{
  All, List, arith, drop, drop-append, false, length, length-append, take, take-append, true, ℕ,
  ◌++◌, ◌<◌, ◌^◌, ◌≡◌, ◌≤◌, [], refl, ◌∙◌,
}
use operating_systems_assign.Base.Int.{pos}
use operating_systems_assign.Kernel.Ends.{Ends, Ends-bind, ends}
use operating_systems_assign.SleepLock.{initsleeplock}
use operating_systems_assign.Users.{
  FileOps, User, Users, nuser, table_bytes, table_of_bytes, uint_bytes, uint_of_bytes,
}
use operating_systems_assign.Users.Ops.{init_usertable, init_first, read_usertable}
use operating_systems_assign.Users.Layout.{
  IsUser, length-table_bytes, length-uint_bytes, uint_round, table_round,
}
use operating_systems_assign.Users.Store.{FileLaws, Holds, IsTable, on_file_bind}

module _ (next : ℕ) (us : List User) (c : List ℕ) (h : Holds c next us) where
  length-Holds : All IsUser us → length us ≡ nuser → 364 ≤ length c
  length-Holds e t = rw h.1 (
      omega (
        arith,
        length-append {0} (uint_bytes next) (table_bytes us ++ h.0),
        length-append {0} (table_bytes us) h.0,
        length-uint_bytes next,
        length-table_bytes us e,
      ))

  -- the number that `init_usertable` reads
  read_next : next < 2 ^ 32 → uint_of_bytes (take 4 (drop 0 c)) ≡ next
  read_next n =
      rw (h.1, take-append (uint_bytes next) (table_bytes us ++ h.0) 4 (length-uint_bytes next))
        (uint_round next n)

  -- the table that it reads
  read_users : All IsUser us → length us ≡ nuser → table_of_bytes nuser (take 360 (drop 4 c)) ≡ us
  read_users e t =
      rw
        (
          h.1,
          drop-append (uint_bytes next) (table_bytes us ++ h.0) 4 (length-uint_bytes next),
          take-append (table_bytes us) h.0 360 (omega (arith, length-table_bytes us e)),
        )
        (let m : table_of_bytes nuser (table_bytes us)
              ≡ table_of_bytes (length us) (table_bytes us ++ []) =
            rw (t, append-nil) in
          m ∙ table_round us [] e)

module _ {F : Type 0} (ops : FileOps F) (laws : FileLaws ops) where
  open laws use {content, Idle, InOp, Locked}

  -- The fields that `read_usertable` sets.
  read_usertable_lem :
      (s : Users F) (next : ℕ) (us : List User)
      → InOp s.file
      → next < 2 ^ 32
      → IsTable us
      → Holds (content s.file) next us
      → Ends
          (λ _ t.
            (t ≡ record s { file = t.file; utable = us; next_uid = next })
            × Locked t.file
            × (content t.file ≡ content s.file))
          (read_usertable ops s)
  unfolding read_usertable
  read_usertable_lem s next us o n t h =
      let c = content s.file in
      let long = length-Holds next us c h t.each t.ten in
      on_file_bind _ s (laws.ilock_lem s.file o) λ _ f1 (l1, c1).
        on_file_bind _ (record s { file = f1 })
          (laws.readi_lem f1 0 4 l1 (rw c1 (omega (arith, long))))
          λ r f2 (e2, l2, c2).
            rw (e2, c1, read_next next us c h n)
              (on_file_bind _ (record s { file = f2; next_uid = next })
                (laws.readi_lem f2 4 360 l2 (rw (c2, c1) (omega (arith, long))))
                λ r f3 (e3, l3, c3).
                  rw (e3, c2, c1, read_users next us c h t.each t.ten)
                    (ends (refl, l3, c3 ∙ c2 ∙ c1)))

  -- Over a file system that keeps the laws: a kernel that has not read the table yet, and finds a
  -- file that holds `next` and `us`, reads just those, has the lock free, and leaves the file as it
  -- was.
  pub init_usertable-Holds :
      (s : Users F) (next : ℕ) (us : List User)
      → s.initialized ≡ false
      → Idle s.file
      → next < 2 ^ 32
      → IsTable us
      → Holds (content s.file) next us
      → Ends
          (λ r t.
            (r ≡ pos 0)
            × (t.utable ≡ us)
            × (t.next_uid ≡ next)
            × (t.lock ≡ initsleeplock)
            × (t.initialized ≡ true)
            × Idle t.file
            × (content t.file ≡ content s.file))
          (init_usertable ops s)
  unfolding init_usertable init_first
  init_usertable-Holds s next us fresh i n t h =
      let c = content s.file in
      let long = length-Holds next us c h t.each t.ten in
      simp fresh (
        on_file_bind _ s (laws.begin_lem s.file i) λ _ f1 (o1, c1).
          on_file_bind _ (record s { file = f1 })
            (laws.namei_lem f1 o1 (rw c1 (omega (arith, long))))
            λ b f2 (found, o2, c2). rw found (
              Ends-bind
                (read_usertable_lem (record s { file = f2 }) next us o2 n t (h.0, c2 ∙ c1 ∙ h.1))
                λ _ u (same, l3, c3). rw same (
                  on_file_bind _ (record s { file = u.file; utable = us; next_uid = next })
                    (laws.iunlock_lem u.file l3)
                    λ _ f4 (o4, c4).
                      on_file_bind _ (record s { file = f4; utable = us; next_uid = next })
                        (laws.end_lem f4 o4)
                        λ _ f5 (i5, c5).
                          ends (refl, refl, refl, refl, refl, i5, c5 ∙ c4 ∙ c3 ∙ c2 ∙ c1))))

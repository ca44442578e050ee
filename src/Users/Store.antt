-- ===== src/Users/Store.antt =====
-- usermanage.c: what the table of users relies on of the file system, and /passwd as its store.
use operating_systems_assign.Base.{
  All, List, arith, drop, length, refl, take, true, ℕ, ◌*◌, ◌++◌, ◌+◌, ◌<◌, ◌≡◌, ◌≤◌, ap, false,
  length-append, take-append, ◌∙◌,
}
use operating_systems_assign.Base.Int.{pos, ℤ}
use operating_systems_assign.Kernel.{Cmd, Run, and_then}
use operating_systems_assign.Kernel.Ends.{Ends, Ends-bind, ends}
use operating_systems_assign.Users.{
  FileOps, User, Users, nuser, table_bytes, uint_bytes, with_file, user_size,
}
use operating_systems_assign.Users.Ops.{write_usertable, export_usertable, short}
use operating_systems_assign.Users.Layout.{IsUser, length-table_bytes, length-uint_bytes}

-- `src` written over the bytes of `c` from `off` on
abbrev pub splice : List ℕ → ℕ → List ℕ → List ℕ
splice c off src = take off c ++ (src ++ drop (off + length src) c)

-- What the table relies on of fs.c and log.c: inside a transaction, with the inode locked, `writei`
-- moves all bytes for the first block of the file and `readi` all that the file holds, and the four
-- brackets keep the contents. Users.Volume.Laws fills the record with the models of fs.c and log.c.
pub record FileLaws {F : Type 0} (ops : FileOps F) : Type 1 where
  pub content : F → List ℕ
  -- outside a transaction; inside one; and there with the inode of /passwd locked
  pub Idle : F → Type 0
  pub InOp : F → Type 0
  pub Locked : F → Type 0
  pub begin_lem : (f : F) → Idle f → Ends (λ _ g. InOp g × (content g ≡ content f)) (ops.begin_op f)
  pub ilock_lem : (f : F) → InOp f → Ends (λ _ g. Locked g × (content g ≡ content f)) (ops.ilock f)
  pub iunlock_lem :
      (f : F) → Locked f → Ends (λ _ g. InOp g × (content g ≡ content f)) (ops.iunlock f)
  pub end_lem : (f : F) → InOp f → Ends (λ _ g. Idle g × (content g ≡ content f)) (ops.end_op f)
  -- a file with contents exists
  pub namei_lem :
      (f : F)
      → InOp f
      → 0 < length (content f)
      → Ends (λ r g. (r ≡ true) × InOp g × (content g ≡ content f)) (ops.namei f)
  pub writei_lem :
      (f : F) (src : List ℕ) (off : ℕ)
      → Locked f
      → off ≤ length (content f)
      → off + length src ≤ 512
      → Ends
          (λ r g. (r ≡ pos (length src)) × Locked g × (content g ≡ splice (content f) off src))
          (ops.writei src off f)
  pub readi_lem :
      (f : F) (off n : ℕ)
      → Locked f
      → off + n ≤ length (content f)
      → Ends
          (λ r g. (r ≡ (pos n, take n (drop off (content f)))) × Locked g × (content g ≡ content f))
          (ops.readi off n f)

-- the file begins with `next_uid` and the table
abbrev pub Holds : List ℕ → ℕ → List User → Type 0
Holds c next us = (more : List ℕ) × (c ≡ uint_bytes next ++ (table_bytes us ++ more))

pub record IsTable (us : List User) : Type 0 where
  pub ten : length us ≡ nuser
  pub each : All IsUser us

-- A command of the file system on the field `file`, and what follows it.
pub on_file_bind :
    {F A B : Type 0} {P : A → F → Type 0} {Q : B → Users F → Type 0} {r : Run F A}
    (k : A → Cmd (Users F) B) (s : Users F)
    → Ends P r
    → ((a : A) (f : F) → P a f → Ends Q (k a (record s { file = f })))
    → Ends Q (and_then (with_file s r) k)
on_file_bind k s (ends p) next = next _ _ p

-- the same as a last command
pub on_file_last :
    {F A : Type 0} {P : A → F → Type 0} {Q : A → Users F → Type 0} {r : Run F A} (s : Users F)
    → Ends P r
    → ((a : A) (f : F) → P a f → Q a (record s { file = f }))
    → Ends Q (with_file s r)
on_file_last s (ends p) last = ends (last _ _ p)

-- the state differs in the file alone
abbrev pub FileOnly : {F : Type 0} → Users F → Users F → Type 0
FileOnly s t = t ≡ record s { file = t.file }

-- a written count that is the count asked for is not short
not-short : (r : ℤ) (n m : ℕ) → r ≡ pos n → n ≡ m → short r m ≡ false
not-short r n m e h = rw e (ground arith)

splice-splice :
    (c a b : List ℕ) (m : ℕ)
    → length a ≡ m
    → splice (splice c 0 a) m b ≡ a ++ (b ++ drop (m + length b) (a ++ drop (0 + length a) c))
splice-splice c a b m e =
    ap (λ l. l ++ (b ++ drop (m + length b) (a ++ drop (0 + length a) c)))
      (take-append a (drop (0 + length a) c) m e)

module _ {F : Type 0} (ops : FileOps F) (laws : FileLaws ops) where
  open laws use {content, Idle, InOp, Locked}

  write_usertable_lem :
      (s : Users F)
      → Locked s.file
      → IsTable s.utable
      → Ends
          (λ _ t. FileOnly s t × Locked t.file × Holds (content t.file) s.next_uid s.utable)
          (write_usertable ops s)
  unfolding write_usertable
  write_usertable_lem s l t =
      let a = uint_bytes s.next_uid in
      let b = table_bytes s.utable in
      let la = length-uint_bytes s.next_uid in
      let lb = length-table_bytes s.utable t.each in
      on_file_bind _ s (laws.writei_lem s.file a 0 l (omega arith) (omega (arith, la)))
        λ r f (e, l1, c1). rw (not-short r (length a) 4 e la) (
          on_file_bind _ (record s { file = f })
            (laws.writei_lem f b 4 l1
              (rw c1
                (omega (arith, la, length-append {0} a (drop (0 + length a) (content s.file)))))
              (omega (arith, lb, t.ten)))
            λ r g (e, l2, c2).
              rw (not-short r (length b) (user_size * nuser) e (omega (arith, lb, t.ten))) (
                ends (
                  refl,
                  l2,
                  (_, c2 ∙ ap (λ c. splice c 4 b) c1 ∙ splice-splice (content s.file) a b 4 la),
                )))

  -- Over a file system that keeps the laws, `export_usertable` ends, outside the transaction again,
  -- with `next_uid` and the table in the file, and changes nothing else.
  pub export_usertable_lem :
      (s : Users F)
      → Idle s.file
      → IsTable s.utable
      → Ends
          (λ _ t. FileOnly s t × Idle t.file × Holds (content t.file) s.next_uid s.utable)
          (export_usertable ops s)
  unfolding export_usertable
  export_usertable_lem s i t = on_file_bind _ s (laws.begin_lem s.file i) λ _ f1 (o, _).
      on_file_bind _ (record s { file = f1 }) (laws.ilock_lem f1 o)
        λ _ f2 (l, _).
          Ends-bind (write_usertable_lem (record s { file = f2 }) l t) λ _ u (same, l3, h).
            rw same (
              on_file_bind _ (record s { file = u.file }) (laws.iunlock_lem u.file l3)
                λ _ f4 (o4, c4).
                  on_file_last (record s { file = f4 }) (laws.end_lem f4 o4)
                    λ _ f5 (i5, c5). (refl, i5, (h.0, c5 ∙ c4 ∙ h.1)))

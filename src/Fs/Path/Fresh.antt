-- ===== src/Fs/Path/Fresh.antt =====
-- fs.c: `ialloc` and the inodes on the disk.
use operating_systems_assign.CString.{Bytes}
use operating_systems_assign.Fs.File.Mapping.{same_or_not, if_at, if_off}
use mathlib.Core.Path.{subst}
use operating_systems_assign.Base.{
  Bool-cases, Option, ap, arith, inl, inr, length, ltb, none, some, suc, sym, true, zero, ℕ, ◌%◌,
  ◌*◌, ◌+◌, ◌<◌, ◌==◌, ◌∙◌, ◌≡◌, ◌≢◌, ◌≤◌, ◌⊎◌, false, leb, refl, ◌&&◌,
}
use operating_systems_assign.Kernel.{Run, done, panics, sleeps}
use operating_systems_assign.Fs.{Disk, Super, put_block}
use operating_systems_assign.Fs.File.{iblock, inode_bytes}
use operating_systems_assign.Fs.Inode.{Icache, read_dinode, slot_at}
use operating_systems_assign.Fs.Inode.Cache.{Distinct, is_for, GetOutcome, iget-GetOutcome}
use operating_systems_assign.Fs.Inode.Dinode.{IsInode, SameInode, read_dinode-inode_bytes}
use operating_systems_assign.Fs.Path.{free_dinode, fresh_inode, ialloc, take_dinode}

-- the type of the inode `n` on the disk, 0 for a free one
abbrev pub type_on : Super → Disk → ℕ → ℕ
type_on sb d n = (read_dinode n (d (iblock sb n))).type

abbrev FreeDinode : Super → Disk → ℕ → Option ℕ → Type 0
FreeDinode sb d k none = (n : ℕ) → k ≤ n → n < sb.ninodes → type_on sb d n ≢ 0
FreeDinode sb d k (some n) =
    (k ≤ n)
    × (n < sb.ninodes)
    × (type_on sb d n ≡ 0)
    × ((j : ℕ) → k ≤ j → j < n → type_on sb d j ≢ 0)

FreeDinode-later :
    (sb : Super) (d : Disk) (k : ℕ) (r : Option ℕ)
    → type_on sb d k ≢ 0
    → FreeDinode sb d (suc k) r
    → FreeDinode sb d k r
FreeDinode-later sb d k none h f = λ n a b. elim (same_or_not n k) [
  | inl e ↦ (λ z. h (ap (type_on sb d) (sym e) ∙ z))
  | inr o ↦ f n (omega arith) b
]
FreeDinode-later sb d k (some n) h (a, b, c, f) = (
  omega arith,
  b,
  c,
  λ j x y. elim (same_or_not j k) [
    | inl e ↦ (λ z. h (ap (type_on sb d) (sym e) ∙ z))
    | inr o ↦ f j (omega arith) y
  ],
)

free_dinode-FreeDinode :
    (sb : Super) (d : Disk) (m k : ℕ)
    → sb.ninodes ≤ k + m
    → FreeDinode sb d k (free_dinode sb d k m)
unfolding free_dinode
free_dinode-FreeDinode sb d zero k h = λ n a b. absurd (omega arith)
free_dinode-FreeDinode sb d (suc m) k h =
    let ih = free_dinode-FreeDinode sb d m (suc k) (omega arith) in
    elim (Bool-cases (ltb k sb.ninodes)) [
      | inr out ↦ simp (out) (λ n a b. absurd (ground arith))
      | inl l ↦ elim (Bool-cases (type_on sb d k == 0)) [
        | inl z ↦
            simp (l, z) (omega arith, ground arith, ground arith, λ j a b. absurd (omega arith))
        | inr o ↦ simp (l, o) (FreeDinode-later sb d k _ (ground arith) ih)
      ]
    ]

-- The inode `inum` was free and has the type now, with no links; each other inode on the disk is as
-- it was.
pub record Fresh (sb : Super) (s : Icache) (type inum : ℕ) (e : Disk) : Type 0 where
  pub in_range : (1 ≤ inum) × (inum < sb.ninodes)
  pub was_free : type_on sb s.disk inum ≡ 0
  pub first : (j : ℕ) → 1 ≤ j → j < inum → type_on sb s.disk j ≢ 0
  pub now : SameInode (read_dinode inum (e (iblock sb inum))) (fresh_inode inum type)
  pub others :
      (n i : ℕ)
      → n ≢ inum
      → i < 64
      → e (iblock sb n) (n % 8 * 64 + i) ≡ s.disk (iblock sb n) (n % 8 * 64 + i)

-- what `ialloc` is to give
pub FreshOutcome : Super → ℕ → ℕ → Icache → Run Icache ℕ → Type 0
FreshOutcome sb dev type s (done i t) =
    (inum : ℕ) × Fresh sb s type inum t.disk × (is_for dev inum (slot_at t i) ≡ true) × Distinct t
FreshOutcome sb dev type s sleeps = ⊥
FreshOutcome sb dev type s panics =
    ((n : ℕ) → 1 ≤ n → n < sb.ninodes → type_on sb s.disk n ≢ 0)
    ⊎ ((j : ℕ) → j < length s.inodes → 0 < (slot_at s j).ref)

written-Fresh :
    (sb : Super) (s : Icache) (type inum : ℕ)
    → type < 256
    → FreeDinode sb s.disk 1 (some inum)
    → Fresh sb s type inum (
        put_block s.disk
          (iblock sb inum)
          (inode_bytes (fresh_inode inum type) (s.disk (iblock sb inum))))
written-Fresh sb s type inum l (a, b, c, f) =
    let k = iblock sb inum in
    let v = inode_bytes (fresh_inode inum type) (s.disk k) in
    let is_inode : IsInode (fresh_inode inum type) = record {
      perm = omega arith;
      type = l;
      major = omega arith;
      minor = omega arith;
      nlink = omega arith;
      size = omega arith;
      addrs = λ j m. omega arith;
      owner = omega arith;
    } in
    record {
      in_range = (a, b);
      was_free = c;
      first = f;
      now =
          subst (λ (w : Bytes). SameInode (read_dinode inum w) (fresh_inode inum type))
            (sym (if_at k k v (s.disk k) refl))
            (read_dinode-inode_bytes (fresh_inode inum type) (s.disk k) is_inode);
      others = λ n i ne m.
          let x = n % 8 * 64 + i in
          elim (same_or_not (iblock sb n) k) [
            | inr o ↦ ap (λ (w : Bytes). w x) (if_off (iblock sb n) k v (s.disk (iblock sb n)) o)
            | inl e ↦
                let o : (leb (inum % 8 * 64) x && ltb x (inum % 8 * 64 + 64)) ≡ false =
                  ground arith in
                let same : v x ≡ s.disk k x = simp (o) refl in
                ap (λ (w : Bytes). w x) (if_at (iblock sb n) k v (s.disk (iblock sb n)) e)
                ∙ same
                ∙ ap (λ (b : ℕ). s.disk b x) (sym e)
          ];
    }

-- what `iget` behind the write comes to
got-FreshOutcome :
    (sb : Super) (dev type inum : ℕ) (s : Icache) (d : Disk) (r : Run Icache ℕ)
    → Fresh sb s type inum d
    → GetOutcome dev inum (record s { disk = d }) r
    → FreshOutcome sb dev type s r
unfolding FreshOutcome
got-FreshOutcome sb dev type inum s d (done i t) f g =
    (inum, subst (Fresh sb s type inum) (sym g.same_disk) f, g.found, g.distinct)
got-FreshOutcome sb dev type inum s d sleeps f g = g
got-FreshOutcome sb dev type inum s d panics f g = inr g

take_dinode-FreshOutcome :
    (sb : Super) (dev type : ℕ) (s : Icache) (o : Option ℕ)
    → type < 256
    → Distinct s
    → FreeDinode sb s.disk 1 o
    → FreshOutcome sb dev type s (take_dinode sb dev type o s)
unfolding FreshOutcome
take_dinode-FreshOutcome sb dev type s none l h f = inl f
take_dinode-FreshOutcome sb dev type s (some inum) l h f =
    got-FreshOutcome sb dev type inum s _ _ (written-Fresh sb s type inum l f) (
      iget-GetOutcome dev inum
        (record s {
          disk =
              put_block s.disk (iblock sb inum)
                (inode_bytes (fresh_inode inum type) (s.disk (iblock sb inum)));
        })
        h)

-- With a cache that has no inode twice, `ialloc` takes the first free inode on the disk, gives it its
-- type, of one byte, and no links, leaves the other inodes as they are, and returns its entry in the
-- cache. It panics only if no inode is free or every entry is in use.
pub ialloc-FreshOutcome :
    (sb : Super) (dev type : ℕ) (s : Icache)
    → type < 256
    → Distinct s
    → FreshOutcome sb dev type s (ialloc sb dev type s)
unfolding ialloc
ialloc-FreshOutcome sb dev type s l h =
    take_dinode-FreshOutcome sb dev type s _ l h
      (free_dinode-FreeDinode sb s.disk sb.ninodes 1 (omega arith))

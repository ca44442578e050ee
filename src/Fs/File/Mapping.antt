-- ===== src/Fs/File/Mapping.antt =====
-- fs.c: the blocks of an inode as a map, and what a file keeps while it grows.
use operating_systems_assign.CString.{Bytes}
use operating_systems_assign.Base.{
  Bool-cases, ap, arith, false, if◌then◌else◌, inl, inr, ltb, refl, sym, true, ℕ, ◌%◌, ◌*◌, ◌+◌,
  ◌-◌, ◌/◌, ◌<◌, ◌==◌, ◌∙◌, ◌≡◌, ◌≢◌, ◌≤◌, ◌⊎◌,
}
use operating_systems_assign.Fs.{Disk, Super, bpb, bsize, maxfile, ndirect, word_at}
use operating_systems_assign.Fs.Alloc.Sound.{IsOther, Reserved, in_use}
use operating_systems_assign.Fs.File.{Inode, View}

-- the indirect block of the file, 0 if there is none
abbrev pub indirect_of : View → ℕ
indirect_of s = s.ip.addrs ndirect

-- the address of the block `bn` of the file, 0 for a block that is not there
unfoldable pub addr_of : View → ℕ → ℕ
addr_of s bn =
    if ltb bn ndirect
    then s.ip.addrs bn
    else if indirect_of s == 0
    then 0
    else word_at (s.disk (indirect_of s)) (bn - ndirect)

-- the byte at the offset `off` of the file, 0 in a block that is not there
unfoldable pub byte_at : View → ℕ → ℕ
byte_at s off =
    if addr_of s (off / bsize) == 0 then 0 else s.disk (addr_of s (off / bsize)) (off % bsize)

-- `a` is a block for contents, in use
pub record IsData (sb : Super) (d : Disk) (a : ℕ) : Type 0 where
  pub below : a < sb.size
  pub behind : sb.bmapstart + sb.size / bpb < a
  pub held : in_use sb d a ≡ true

-- The blocks of the file and its indirect block are blocks for contents, each of them once.
pub record IsFile (sb : Super) (s : View) : Type 0 where
  pub blocks : (bn : ℕ) → bn < maxfile → addr_of s bn ≢ 0 → IsData sb s.disk (addr_of s bn)
  pub indirect : indirect_of s ≢ 0 → IsData sb s.disk (indirect_of s)
  pub once :
      (bn bm : ℕ)
      → bn < maxfile
      → bm < maxfile
      → addr_of s bn ≢ 0
      → addr_of s bn ≡ addr_of s bm
      → bn ≡ bm
  pub aside : (bn : ℕ) → bn < maxfile → addr_of s bn ≢ 0 → addr_of s bn ≢ indirect_of s

-- `x` is no block of the file
pub record IsForeign (s : View) (x : ℕ) : Type 0 where
  pub not_indirect : x ≢ indirect_of s
  pub not_block : (bn : ℕ) → bn < maxfile → x ≢ addr_of s bn

-- A block in use that is none of the file's: it stays so, with its bytes.
pub record Stays (sb : Super) (s t : View) (x : ℕ) : Type 0 where
  pub foreign : IsForeign t x
  pub used : in_use sb t.disk x ≡ true
  pub same : IsOther sb x → t.disk x ≡ s.disk x

-- What a step from `s` to `t` on the file's contents leaves alone, with `bytes` the new contents: the
-- fields of the inode but the addresses, the presence of a block, and each block in use that is none
-- of the file's.
pub record Changes (sb : Super) (s t : View) (bytes : ℕ → ℕ) : Type 0 where
  pub contents : (off : ℕ) → off < maxfile * bsize → byte_at t off ≡ bytes off
  pub fields : t.ip ≡ record s.ip { addrs = t.ip.addrs }
  pub keeps : (bn : ℕ) → bn < maxfile → addr_of s bn ≢ 0 → addr_of t bn ≢ 0
  pub others : (x : ℕ) → x < sb.size → in_use sb s.disk x ≡ true → IsForeign s x → Stays sb s t x

-- The blocks up to the end of the bitmap and those of the file are in use.
pub record Sound (sb : Super) (s : View) : Type 0 where
  pub reserved : Reserved sb s.disk
  pub file : IsFile sb s

pub Changes-refl : (sb : Super) (s : View) → Changes sb s s (byte_at s)
Changes-refl sb s = record {
  contents = λ off l. refl;
  fields = refl;
  keeps = λ bn l n. n;
  others = λ x l u f. record { foreign = f; used = u; same = λ o. refl };
}

pub Changes-trans :
    (sb : Super) (s t u : View) (f g : ℕ → ℕ)
    → Changes sb s t f
    → Changes sb t u g
    → Changes sb s u g
Changes-trans sb s t u f g a b = record {
  contents = b.contents;
  fields = b.fields ∙ ap (λ (ip : Inode). record ip { addrs = u.ip.addrs }) a.fields;
  keeps = λ bn l n. b.keeps bn l (a.keeps bn l n);
  others = λ x l used o.
      let p = a.others x l used o in
      let q = b.others x l p.used p.foreign in
      record { foreign = q.foreign; used = q.used; same = λ r. q.same r ∙ p.same r };
}

pub Changes-bytes :
    (sb : Super) (s t : View) (f g : ℕ → ℕ)
    → Changes sb s t f
    → ((off : ℕ) → off < maxfile * bsize → f off ≡ g off)
    → Changes sb s t g
Changes-bytes sb s t f g a h = record {
  contents = λ off l. a.contents off l ∙ h off l;
  fields = a.fields;
  keeps = a.keeps;
  others = a.others;
}

-- The free block `b` becomes the block `bn` of the file, which was not there.
pub record Placed (sb : Super) (s t : View) (bn b : ℕ) : Type 0 where
  pub in_size : b < sb.size
  pub was_free : in_use sb s.disk b ≡ false
  pub used :
      (x : ℕ) → x < sb.size → in_use sb t.disk x ≡ (if x == b then true else in_use sb s.disk x)
  pub zeroed : (i : ℕ) → i < bsize → t.disk b i ≡ 0
  pub same : (x : ℕ) → x ≢ b → x ≢ indirect_of s → IsOther sb x → t.disk x ≡ s.disk x
  pub fields : t.ip ≡ record s.ip { addrs = t.ip.addrs }
  pub same_indirect : indirect_of t ≡ indirect_of s
  pub was_absent : addr_of s bn ≡ 0
  pub addrs : (bm : ℕ) → bm < maxfile → addr_of t bm ≡ (if bm == bn then b else addr_of s bm)

module _ (sb : Super) (d : Disk) (r : Reserved sb d) (b : ℕ) (free : in_use sb d b ≡ false) where
  pub free-behind : sb.bmapstart + sb.size / bpb < b
  free-behind = elim (Bool-cases (ltb (sb.bmapstart + sb.size / bpb) b)) [
    | inl l ↦ ground arith
    | inr l ↦ let u = r b (ground arith) in absurd (ground arith)
  ]

  pub free-other : (x : ℕ) → in_use sb d x ≡ true → x ≢ b
  free-other x u e = let u' : in_use sb d b ≡ true = simp (sym e) u in absurd (ground arith)

pub byte_at-absent : (s : View) (off : ℕ) → addr_of s (off / bsize) ≡ 0 → byte_at s off ≡ 0
unfolding byte_at
byte_at-absent s off e = simp (e) refl

pub byte_at-there :
    (s : View) (off : ℕ)
    → addr_of s (off / bsize) ≢ 0
    → byte_at s off ≡ s.disk (addr_of s (off / bsize)) (off % bsize)
unfolding byte_at
byte_at-there s off ne =
    let o : (addr_of s (off / bsize) == 0) ≡ false = ground arith in simp (o) refl

pub IsData-IsOther : (sb : Super) (d : Disk) (a : ℕ) → IsData sb d a → IsOther sb a
IsData-IsOther sb d a h = inr h.behind

pub addr_of-direct : (s : View) (bn : ℕ) → bn < ndirect → addr_of s bn ≡ s.ip.addrs bn
unfolding addr_of
addr_of-direct s bn l = let o : ltb bn ndirect ≡ true = ground arith in simp (o) refl

pub addr_of-none : (s : View) (bn : ℕ) → ndirect ≤ bn → indirect_of s ≡ 0 → addr_of s bn ≡ 0
unfolding addr_of
addr_of-none s bn l z = let o : ltb bn ndirect ≡ false = ground arith in simp (o, z) refl

pub addr_of-word :
    (s : View) (bn : ℕ)
    → ndirect ≤ bn
    → indirect_of s ≢ 0
    → addr_of s bn ≡ word_at (s.disk (indirect_of s)) (bn - ndirect)
unfolding addr_of
addr_of-word s bn l ne =
    let o : ltb bn ndirect ≡ false = ground arith in
    let z : (s.ip.addrs 11 == 0) ≡ false = ground arith in simp (o, z) refl

module _ {A : Type 0} (i j : ℕ) (a b : A) where
  pub if_at : i ≡ j → (if i == j then a else b) ≡ a
  if_at e = let o : (i == j) ≡ true = ground arith in simp (o) refl

  pub if_off : i ≢ j → (if i == j then a else b) ≡ b
  if_off ne = let o : (i == j) ≡ false = ground arith in simp (o) refl

-- the two cases of a block number
pub is_direct : (bn : ℕ) → (bn < ndirect) ⊎ (ndirect ≤ bn)
is_direct bn = omega arith

pub same_or_not : (i j : ℕ) → (i ≡ j) ⊎ (i ≢ j)
same_or_not i j = elim (Bool-cases (i == j)) [
  | inl e ↦ inl (ground arith)
  | inr e ↦ inr (ground arith)
]

-- the words of the indirect block stay
pub same-words :
    (s t : View) (bm : ℕ)
    → ndirect ≤ bm
    → indirect_of t ≡ indirect_of s
    → (indirect_of s ≢ 0 → t.disk (indirect_of s) ≡ s.disk (indirect_of s))
    → addr_of t bm ≡ addr_of s bm
same-words s t bm k o h = elim (same_or_not (indirect_of s) 0) [
  | inl z ↦ addr_of-none t bm k (o ∙ z) ∙ sym (addr_of-none s bm k z)
  | inr ne ↦
      addr_of-word t bm k (λ z. ne (sym o ∙ z))
      ∙ ap (λ (x : ℕ). word_at (t.disk x) (bm - ndirect)) o
      ∙ ap (λ (v : Bytes). word_at v (bm - ndirect)) (h ne)
      ∙ sym (addr_of-word s bm k ne)
]

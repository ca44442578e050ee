-- ===== src/Fs/Alloc/Sound.antt =====
-- fs.c: `balloc` and `bfree` against the set of the blocks in use.
use operating_systems_assign.Kernel.Ends.{Ends, ends}
use operating_systems_assign.Kernel.{Run, and_then, done, panics, sleeps, Cmd}
use operating_systems_assign.Base.{
  ◌==◌, if◌then◌else◌, false, Bool, true, Option, arith, none, some, suc, zero, ℕ, ◌%◌, ◌+◌, ◌/◌,
  ◌<◌, ◌≡◌, ◌≢◌, ◌≤◌, ◌⊎◌, Bool-cases, inl, inr, ltb, ◌*◌, refl, ◌-◌, ◌∙◌,
}
use operating_systems_assign.Fs.{Disk, Super, bpb, bsize, put_block}
use operating_systems_assign.Fs.Bits.{bit_of, bit_of-set_bit, bit_of-clear_bit}
use operating_systems_assign.Fs.Alloc.{
  mark, bblock, free_bit, balloc, balloc_from, bfree, bzero, take_bit,
}

-- the bit of the bitmap for the block `x`
unfoldable pub in_use : Super → Disk → ℕ → Bool
in_use sb d x = bit_of (d (bblock sb x) (x % bpb / 8)) (x % bpb % 8)

-- `x` is no block of the bitmap
abbrev pub IsOther : Super → ℕ → Type 0
IsOther sb x = (x < sb.bmapstart) ⊎ (sb.bmapstart + sb.size / bpb < x)

-- The blocks up to the end of the bitmap are in use, as `mkfs` marks them.
abbrev pub Reserved : Super → Disk → Type 0
Reserved sb d = (x : ℕ) → x ≤ sb.bmapstart + sb.size / bpb → in_use sb d x ≡ true

-- What `balloc` makes of the disk `d` when it returns `b`: a free block, now zero and in use; no other
-- block changes but the bitmap, and there no other bit.
pub record Allocated (sb : Super) (d e : Disk) (b : ℕ) : Type 0 where
  pub in_size : b < sb.size
  pub was_free : in_use sb d b ≡ false
  pub used : (x : ℕ) → x < sb.size → in_use sb e x ≡ (if x == b then true else in_use sb d x)
  pub zeroed : (i : ℕ) → i < bsize → e b i ≡ 0
  pub same : (x : ℕ) → x ≢ b → IsOther sb x → e x ≡ d x

in_use-mark :
    (sb : Super) (b bi x : ℕ) (d : Disk)
    → b % bpb ≡ 0
    → bi < bpb
    → in_use sb (mark sb b bi d) x ≡ (if x == b + bi then true else in_use sb d x)
unfolding in_use mark
in_use-mark sb b bi x d h k =
    let l = bit_of-set_bit (d (bblock sb b) (bi / 8)) (bi % 8) (x % bpb % 8) in ground (arith, l)

first_or_later : (i j : ℕ) → i ≤ j → (j ≡ i) ⊎ (suc i ≤ j)
first_or_later i j h = omega arith

-- the first free bit, or none
abbrev FreeBit : ℕ → Disk → Super → ℕ → ℕ → ℕ → Option ℕ → Type 0
FreeBit size d sb b bi m none =
    (i : ℕ) → bi ≤ i → i < bi + m → b + i < size → in_use sb d (b + i) ≡ true
FreeBit size d sb b bi m (some i) =
    (bi ≤ i) × (i < bi + m) × (b + i < size) × (in_use sb d (b + i) ≡ false)

FreeBit-later :
    (size : ℕ) (d : Disk) (sb : Super) (b bi m : ℕ) (r : Option ℕ)
    → in_use sb d (b + bi) ≡ true
    → FreeBit size d sb b (suc bi) m r
    → FreeBit size d sb b bi (suc m) r
FreeBit-later size d sb b bi m none u h =
    λ i a c l. elim (first_or_later bi i a) [ inl e ↦ simp (e) u | inr k ↦ h i k (omega arith) l ]
FreeBit-later size d sb b bi m (some i) u (x, y, z, w) = (omega arith, omega arith, z, w)

free_bit-FreeBit :
    (size : ℕ) (d : Disk) (sb : Super) (b m bi : ℕ)
    → b % bpb ≡ 0
    → bi + m ≤ bpb
    → FreeBit size d sb b bi m (free_bit size (d (bblock sb b)) b bi m)
unfolding free_bit in_use
free_bit-FreeBit size d sb b zero bi h k = λ i a c. absurd (omega arith)
free_bit-FreeBit size d sb b (suc m) bi h k =
    let ih = free_bit-FreeBit size d sb b m (suc bi) h (omega arith) in
    let e1 : (b + bi) / bpb ≡ b / bpb = omega arith in
    let e2 : (b + bi) % bpb ≡ bi = omega arith in
    elim (Bool-cases (ltb (b + bi) size)) [
      | inr out ↦ simp (out) (λ i a c l. absurd (ground arith))
      | inl inside ↦ elim (Bool-cases (bit_of (d (bblock sb b) (bi / 8)) (bi % 8))) [
        | inr free ↦
            simp (inside, free) (omega arith, omega arith, ground arith, simp (e1, e2) free)
        | inl used ↦ simp (inside, used) (FreeBit-later size d sb b bi m _ (simp (e1, e2) used) ih)
      ]
    ]

-- what a run of `balloc` from the block `b` on comes to
abbrev pub Outcome : Super → Disk → ℕ → Run Disk ℕ → Type 0
Outcome sb d b (done c e) = Allocated sb d e c
Outcome sb d b sleeps = ⊥
Outcome sb d b panics = (x : ℕ) → b ≤ x → x < sb.size → in_use sb d x ≡ true

in_use-zeroed :
    (sb : Super) (e : Disk) (c x : ℕ)
    → (bblock sb x == c) ≡ false
    → in_use sb (put_block e c (λ i. if ltb i bsize then 0 else e c i)) x ≡ in_use sb e x
unfolding in_use
in_use-zeroed sb e c x a = simp (a) refl

mark-same :
    (sb : Super) (b bi x : ℕ) (d : Disk) → b + bi < sb.size → IsOther sb x → mark sb b bi d x ≡ d x
unfolding mark
mark-same sb b bi x d l o = let q : (x == bblock sb b) ≡ false = ground arith in simp (q) refl

near_or_far : (b x : ℕ) → b ≤ x → ((i : ℕ) × (x ≡ b + i) × (i < bpb)) ⊎ (b + bpb ≤ x)
near_or_far b x h = elim (Bool-cases (ltb x (b + bpb))) [
  | inl e ↦ inl (x - b, omega arith, ground arith)
  | inr e ↦ inr (ground arith)
]

take_bit-Allocated :
    (sb : Super) (d : Disk) (b bi : ℕ)
    → Reserved sb d
    → b % bpb ≡ 0
    → bi < bpb
    → b + bi < sb.size
    → in_use sb d (b + bi) ≡ false
    → Outcome sb d b (and_then (bzero (b + bi) (mark sb b bi d)) (λ _ e. done (b + bi) e))
unfolding bzero
take_bit-Allocated sb d b bi r h k l free =
    let c = b + bi in
    let e = mark sb b bi d in
    let apart : (y : ℕ) → y ≤ sb.bmapstart + sb.size / bpb → (y == c) ≡ false =
      (λ y s. let u = r y s in ground arith) in
    let own : (c == c) ≡ true = ground arith in
    record {
      in_size = l;
      was_free = free;
      used = λ x s.
          let a = apart (bblock sb x) (omega arith) in
          in_use-zeroed sb e c x a ∙ in_use-mark sb b bi x d h k;
      zeroed = λ i s. let s' : ltb i bsize ≡ true = ground arith in simp (own, s') refl;
      same =
          λ x ne o. let q : (x == c) ≡ false = ground arith in simp (q) (mark-same sb b bi x d l o);
    }

Outcome-earlier :
    (sb : Super) (d : Disk) (b : ℕ) (r : Run Disk ℕ)
    → ((i : ℕ) → 0 ≤ i → i < 0 + bpb → b + i < sb.size → in_use sb d (b + i) ≡ true)
    → Outcome sb d (b + bpb) r
    → Outcome sb d b r
Outcome-earlier sb d b (done c e) h o = o
Outcome-earlier sb d b sleeps h o = o
Outcome-earlier sb d b panics h o = λ x a c. elim (near_or_far b x a) [
  | inl (i, e, s) ↦ simp (e) (h i (omega arith) (omega arith) (omega arith))
  | inr far ↦ o x far c
]

take_bit-Outcome :
    (sb : Super) (d : Disk) (b : ℕ) (o : Option ℕ) (next : Cmd Disk ℕ)
    → Reserved sb d
    → b % bpb ≡ 0
    → FreeBit sb.size d sb b 0 bpb o
    → Outcome sb d (b + bpb) (next d)
    → Outcome sb d b (take_bit sb b o next d)
take_bit-Outcome sb d b none next r h f ih = Outcome-earlier sb d b (next d) f ih
take_bit-Outcome sb d b (some bi) next r h (x, y, l, free) ih =
    take_bit-Allocated sb d b bi r h (omega arith) l free

balloc_from-Outcome :
    (sb : Super) (d : Disk) (m b : ℕ)
    → Reserved sb d
    → b % bpb ≡ 0
    → sb.size < b + m * bpb
    → Outcome sb d b (balloc_from sb b m d)
unfolding balloc_from
balloc_from-Outcome sb d zero b r h l = λ x a c. absurd (omega arith)
balloc_from-Outcome sb d (suc m) b r h l =
    let ih = balloc_from-Outcome sb d m (b + bpb) r (omega arith) (omega arith) in
    let found = free_bit-FreeBit sb.size d sb b bpb 0 h (omega arith) in
    elim (Bool-cases (ltb b sb.size)) [
      | inl inside ↦
          simp (inside) (take_bit-Outcome sb d b _ (balloc_from sb (b + bpb) m) r h found ih)
      | inr out ↦ simp (out) (λ x a c. absurd (ground arith))
    ]

-- With the blocks up to the end of the bitmap in use, `balloc` finds a free block if there is one,
-- zeroes it and marks it, and changes no other block but the bitmap; it panics only if none is free.
pub balloc-Outcome : (sb : Super) (d : Disk) → Reserved sb d → Outcome sb d 0 (balloc sb d)
unfolding balloc
balloc-Outcome sb d r =
    balloc_from-Outcome sb d (suc (sb.size / bpb)) 0 r (omega arith) (omega arith)

-- `bfree` of a block in use frees this block and no other; it changes the bitmap alone.
pub bfree-Freed :
    (sb : Super) (d : Disk) (b : ℕ)
    → in_use sb d b ≡ true
    → Ends
        (λ _ e.
          ((x : ℕ) → in_use sb e x ≡ (if x == b then false else in_use sb d x))
          × ((x : ℕ) → x ≢ bblock sb b → e x ≡ d x))
        (bfree sb b d)
unfolding bfree in_use
bfree-Freed sb d b h = simp (h) (
    ends (
      λ x.
          let l = bit_of-clear_bit (d (bblock sb b) (b % bpb / 8)) (b % bpb % 8) (x % bpb % 8) in
          ground (arith, l),
      λ x ne. let q : (x == bblock sb b) ≡ false = ground arith in simp (q) refl,
    ))

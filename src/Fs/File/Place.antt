-- ===== src/Fs/File/Place.antt =====
-- fs.c: where `bmap` puts the block that `balloc` gave it.
use operating_systems_assign.Fs.Alloc.{bblock}
use operating_systems_assign.Base.{
  arith, false, if◌then◌else◌, inl, inr, refl, ℕ, ◌+◌, ◌<◌, ◌==◌, ◌≡◌, ◌≢◌, sym, ◌∙◌, ap, ◌%◌, ◌*◌,
  ◌-◌, ◌/◌,
}
use operating_systems_assign.CString.{Bytes}
use operating_systems_assign.Fs.{
  Disk, Super, maxfile, ndirect, nindirect, put_block, put_word, uint, word_at, bpb, bsize,
}
use operating_systems_assign.Fs.Alloc.Sound.{Allocated, in_use}
use operating_systems_assign.Fs.File.{View, set_addr}
use operating_systems_assign.Fs.File.Mapping.{
  IsData-IsOther, Placed, Sound, addr_of, free-other, indirect_of, addr_of-direct, if_off,
  is_direct, same_or_not, addr_of-none, addr_of-word, free-behind, if_at, same-words,
}

word_bytes :
    (v : Bytes) (i : ℕ) {b0 b1 b2 b3 : ℕ}
    → v (4 * i) ≡ b0
    → v (4 * i + 1) ≡ b1
    → v (4 * i + 2) ≡ b2
    → v (4 * i + 3) ≡ b3
    → word_at v i ≡ b0 + 256 * (b1 + 256 * (b2 + 256 * b3))
word_bytes v i e0 e1 e2 e3 = simp (e0, e1, e2, e3) refl

word_at-put_word :
    (v : Bytes) (i w j : ℕ)
    → w < uint
    → word_at (put_word v i w) j ≡ (if j == i then w else word_at v j)
word_at-put_word v i w j l = elim (same_or_not j i) [
  | inl e ↦
      let b0 : put_word v i w (4 * i) ≡ w % 256 = ground arith in
      let b1 : put_word v i w (4 * i + 1) ≡ w / 256 % 256 = ground arith in
      let b2 : put_word v i w (4 * i + 2) ≡ w / 65536 % 256 = ground arith in
      let b3 : put_word v i w (4 * i + 3) ≡ w / 16777216 % 256 = ground arith in
      let sum : w % 256
            + 256 * (w / 256 % 256 + 256 * (w / 65536 % 256 + 256 * (w / 16777216 % 256)))
          ≡ w =
        omega arith in
      ap (word_at (put_word v i w)) e
      ∙ word_bytes (put_word v i w) i b0 b1 b2 b3
      ∙ sum
      ∙ sym (if_at j i w (word_at v j) e)
  | inr ne ↦
      let b0 : put_word v i w (4 * j) ≡ v (4 * j) = ground arith in
      let b1 : put_word v i w (4 * j + 1) ≡ v (4 * j + 1) = ground arith in
      let b2 : put_word v i w (4 * j + 2) ≡ v (4 * j + 2) = ground arith in
      let b3 : put_word v i w (4 * j + 3) ≡ v (4 * j + 3) = ground arith in
      word_bytes (put_word v i w) j b0 b1 b2 b3 ∙ sym (if_off j i w (word_at v j) ne)
]

-- a block behind the bitmap has no part in which blocks are in use
pub in_use-aside :
    (sb : Super) (d : Disk) (a : ℕ) (v : Bytes) (x : ℕ)
    → x < sb.size
    → sb.bmapstart + sb.size / bpb < a
    → in_use sb (put_block d a v) x ≡ in_use sb d x
unfolding in_use
in_use-aside sb d a v x l h = let o : (bblock sb x == a) ≡ false = ground arith in simp (o) refl

module _ (sb : Super) (s : View) (sound : Sound sb s) (e : Disk) (b : ℕ)
    (al : Allocated sb s.disk e b) where
  indirect-kept : indirect_of s ≢ 0 → e (indirect_of s) ≡ s.disk (indirect_of s)
  indirect-kept ne =
      let h = sound.file.indirect ne in
      al.same (indirect_of s) (free-other sb s.disk sound.reserved b al.was_free _ h.held)
        (IsData-IsOther sb s.disk _ h)

  -- the state after a direct block is allocated
  abbrev pub direct_view : ℕ → View
  direct_view i = record s { disk = e; ip = set_addr i b s.ip }

  direct-addrs :
      (i bm : ℕ) → i < ndirect → addr_of (direct_view i) bm ≡ (if bm == i then b else addr_of s bm)
  direct-addrs i bm l =
      let t = direct_view i in
      elim (is_direct bm) [
        | inl k ↦
            addr_of-direct t bm k
            ∙ ap (λ (x : ℕ). if bm == i then b else x) (sym (addr_of-direct s bm k))
        | inr k ↦
            let off : indirect_of t ≡ indirect_of s =
              if_off ndirect i b (indirect_of s) (omega arith) in
            same-words s t bm k off indirect-kept ∙ sym (if_off bm i b (addr_of s bm) (omega arith))
      ]

  pub direct-Placed : (i : ℕ) → i < ndirect → s.ip.addrs i ≡ 0 → Placed sb s (direct_view i) i b
  direct-Placed i l z = record {
    in_size = al.in_size;
    was_free = al.was_free;
    used = al.used;
    zeroed = al.zeroed;
    same = λ x ne _ o. al.same x ne o;
    fields = refl;
    same_indirect = if_off ndirect i b (indirect_of s) (omega arith);
    was_absent = addr_of-direct s i l ∙ z;
    addrs = λ bm m. direct-addrs i bm l;
  }

  -- the state after the indirect block is allocated
  abbrev pub indirect_view : View
  indirect_view = record s { disk = e; ip = set_addr ndirect b s.ip }

  pub indirect-addrs :
      (bm : ℕ) → bm < maxfile → indirect_of s ≡ 0 → addr_of indirect_view bm ≡ addr_of s bm
  indirect-addrs bm m z =
      let t = indirect_view in
      elim (is_direct bm) [
        | inl k ↦
            addr_of-direct t bm k
            ∙ if_off bm ndirect b (s.ip.addrs bm) (omega arith)
            ∙ sym (addr_of-direct s bm k)
        | inr k ↦
            let v = free-behind sb s.disk sound.reserved b al.was_free in
            let o : (j : ℕ) → j < bsize → e b j ≡ 0 = al.zeroed in
            let w = bm - ndirect in
            addr_of-word t bm k (λ z. omega arith)
            ∙ word_bytes (e b) w (o (4 * w) (omega arith)) (o (4 * w + 1) (omega arith))
                (o (4 * w + 2) (omega arith)) (o (4 * w + 3) (omega arith))
            ∙ sym (addr_of-none s bm k z)
      ]

  -- the state after the block of the word `i` is allocated
  abbrev pub word_view : ℕ → View
  word_view i = record s { disk = put_block e (indirect_of s) (put_word (e (indirect_of s)) i b) }

  word-addrs :
      (i bm : ℕ)
      → bm < maxfile
      → indirect_of s ≢ 0
      → b < uint
      → addr_of (word_view i) bm ≡ (if bm == ndirect + i then b else addr_of s bm)
  word-addrs i bm m ne l =
      let t = word_view i in
      let a = indirect_of s in
      elim (is_direct bm) [
        | inl k ↦
            addr_of-direct t bm k
            ∙ sym (addr_of-direct s bm k)
            ∙ sym (if_off bm (ndirect + i) b (addr_of s bm) (omega arith))
        | inr k ↦
            addr_of-word t bm k ne
            ∙ ap (λ (v : Bytes). word_at v (bm - ndirect))
                (if_at a a (put_word (e a) i b) (e a) refl)
            ∙ word_at-put_word (e a) i b (bm - ndirect) l
            ∙ elim (same_or_not bm (ndirect + i)) [
              | inl q ↦
                  if_at (bm - ndirect) i b (word_at (e a) (bm - ndirect)) (omega arith)
                  ∙ sym (if_at bm (ndirect + i) b (addr_of s bm) q)
              | inr q ↦
                  if_off (bm - ndirect) i b (word_at (e a) (bm - ndirect)) (omega arith)
                  ∙ ap (λ (v : Bytes). word_at v (bm - ndirect)) (indirect-kept ne)
                  ∙ sym (addr_of-word s bm k ne)
                  ∙ sym (if_off bm (ndirect + i) b (addr_of s bm) q)
            ]
      ]

  pub word-Placed :
      (i : ℕ)
      → i < nindirect
      → indirect_of s ≢ 0
      → word_at (s.disk (indirect_of s)) i ≡ 0
      → sb.size < uint
      → Placed sb s (word_view i) (ndirect + i) b
  word-Placed i l ne z big =
      let h = sound.file.indirect ne in
      let a = indirect_of s in
      record {
        in_size = al.in_size;
        was_free = al.was_free;
        used = λ x m. in_use-aside sb e a (put_word (e a) i b) x m h.behind ∙ al.used x m;
        zeroed = λ j m.
            ap (λ (v : Bytes). v j)
              (if_off b a (put_word (e a) i b) (e b)
                (λ q. free-other sb s.disk sound.reserved b al.was_free a h.held (sym q)))
            ∙ al.zeroed j m;
        same = λ x nb ni o. if_off x a (put_word (e a) i b) (e x) ni ∙ al.same x nb o;
        fields = refl;
        same_indirect = refl;
        was_absent =
            addr_of-word s (ndirect + i) (omega arith) ne
            ∙ (let q : ndirect + i - ndirect ≡ i = omega arith in ap (word_at (s.disk a)) q ∙ z);
        addrs = λ bm m. word-addrs i bm m ne (let l = al.in_size in omega arith);
      }

-- ===== src/Fs/File/Write.antt =====
-- fs.c: the loop of `writei` and the contents of a file.
use operating_systems_assign.Fs.File.Put.{put-Changes, put-Sound, put-addr, put-in_use, put_view}
use operating_systems_assign.Fs.File.Read.{chunk, chunk-bounds}
use operating_systems_assign.Kernel.Ends.{Ends, Ends-bind, Ends-mono, ends}
use operating_systems_assign.Fs.Alloc.Room.{free_below-eq, free_blocks}
use operating_systems_assign.Fs.File.Bmap.{Found, bmap-Found, bmap-there}
use operating_systems_assign.Fs.File.Indirect.{Grown-mono, Grown-refl}
use mathlib.Core.Path.{subst}
use operating_systems_assign.Base.{
  Bool-cases, List, ap, arith, drop, false, get_or, if◌then◌else◌, inl, inr, leb, length,
  length-drop, length-take, ltb, suc, sym, take, zero, ℕ, ◌%◌, ◌&&◌, ◌*◌, ◌+◌, ◌-◌, ◌/◌, ◌<◌, ◌==◌,
  ◌∙◌, ◌≡◌, ◌≢◌, ◌≤◌, refl, ◌⊎◌,
}
use operating_systems_assign.Fs.{Super, bsize, maxfile, put_block, uint}
use operating_systems_assign.Fs.File.{View, write_at, write_from, bmap}
use operating_systems_assign.Fs.File.Mapping.{
  Changes, Changes-bytes, Changes-refl, Changes-trans, Sound, addr_of, byte_at, same_or_not,
}
use operating_systems_assign.Fs.File.Patch.{
  patched, patched-next, patched-out, rounds, rounds_next, write_at-patched,
}

-- What a loop of `writei` from `s` comes to: its end, and the file with the bytes written.
pub record Wrote (sb : Super) (s : View) (off : ℕ) (src : List ℕ) (end : ℕ) (t : View)
    : Type 0 where
  pub at_end : end ≡ off + length src
  pub sound : Sound sb t
  pub changes : Changes sb s t (patched (byte_at s) off src)
  pub covers : (x : ℕ) → off ≤ x → x < off + length src → addr_of t (x / bsize) ≢ 0

module _ (sb : Super) (big : sb.size < uint) where
  -- a round, and what the rest of the loop does
  Wrote-round :
      (s t u : View) (off k end : ℕ) (src : List ℕ)
      → k ≤ length src
      → off / bsize < maxfile
      → off % bsize + k ≤ bsize
      → addr_of t (off / bsize) ≢ 0
      → Changes sb s t (patched (byte_at s) off (take k src))
      → Wrote sb t (off + k) (drop k src) end u
      → Wrote sb s off src end u
  Wrote-round s t u off k end src h in_file fit there c w =
      let ld = length-drop k src in
      let e = w.at_end in
      record {
        at_end = omega arith;
        sound = w.sound;
        covers = λ x lo hi. elim (Bool-cases (ltb x (off + k))) [
          | inl l ↦
              let q : off / bsize ≡ x / bsize = ground arith in
              (λ z. w.changes.keeps (off / bsize) in_file there (ap (addr_of u) q ∙ z))
          | inr l ↦ w.covers x (ground arith) (omega arith)
        ];
        changes =
            Changes-bytes sb s u (patched (byte_at t) (off + k) (drop k src))
              (patched (byte_at s) off src) (Changes-trans sb s t u _ _ c w.changes)
              (λ x l.
                ap
                  (λ (b : ℕ).
                    if leb (off + k) x && ltb x (off + k + length (drop k src))
                    then get_or (drop k src) (x - (off + k)) 0
                    else b)
                  (c.contents x l)
                ∙ patched-next (byte_at s) off k src x h);
      }

  -- the state after the bytes of a round are put into the block `a`
  abbrev put_round : View → ℕ → List ℕ → ℕ → View
  put_round t off src a = record t {
    disk = put_block t.disk a (write_at (t.disk a) (off % bsize) src);
  }

  abbrev Round : View → ℕ → List ℕ → View → Type 0
  Round s off src u =
      Sound sb u
      × Changes sb s u (patched (byte_at s) off src)
      × (free_blocks sb s.disk ≤ free_blocks sb u.disk + 2)
      × (addr_of u (off / bsize) ≢ 0)

  put_round-Round :
      (s t : View) (off a : ℕ) (src : List ℕ)
      → off / bsize < maxfile
      → off % bsize + length src ≤ bsize
      → Found sb s (off / bsize) 2 a t
      → Round s off src (put_round t off src a)
  put_round-Round s t off a src l fit h =
      let bn = off / bsize in
      let g = h.growth in
      let there : addr_of t bn ≢ 0 = (λ z. h.there (sym h.found ∙ z)) in
      let v = write_at (t.disk (addr_of t bn)) (off % bsize) src in
      let count =
        free_below-eq sb t.disk (put_view sb t g.sound bn l there v).disk sb.size
          (put-in_use sb t g.sound bn l there v) in
      let c =
        Changes-bytes sb t (put_view sb t g.sound bn l there v) _ (patched (byte_at t) off src)
          (put-Changes sb t g.sound bn l there v) (λ x _. write_at-patched t off src x there fit) in
      let taken = g.taken in
      let d =
        Changes-bytes sb s _ (patched (byte_at t) off src) (patched (byte_at s) off src)
          (Changes-trans sb s t _ (byte_at s) (patched (byte_at t) off src) g.changes c)
          (λ x m.
            ap
              (λ (b : ℕ).
                if leb off x && ltb x (off + length src) then get_or src (x - off) 0 else b)
              (g.changes.contents x m)) in
      subst (λ (x : ℕ). Round s off src (put_round t off src x)) h.found
        (
          put-Sound sb t g.sound bn l there v,
          d,
          omega arith,
          λ z. there (sym (put-addr sb t g.sound bn l there v bn) ∙ z),
        )

  -- The blocks that the write may need are free, or the blocks of its bytes are all there.
  abbrev pub HasRoom : View → ℕ → ℕ → Type 0
  HasRoom s off n =
      (2 * rounds off n ≤ free_blocks sb s.disk)
      ⊎ ((x : ℕ) → off ≤ x → x < off + n → addr_of s (x / bsize) ≢ 0)

  bmap-HasRoom :
      (s : View) (off n : ℕ)
      → n ≢ 0
      → off + n ≤ maxfile * bsize
      → Sound sb s
      → HasRoom s off n
      → Ends (Found sb s (off / bsize) 2) (bmap sb (off / bsize) s)
  bmap-HasRoom s off n ne h sound (inl f) =
      let fewer = rounds_next off n ne in
      bmap-Found sb big s sound (off / bsize) (omega arith) (omega arith)
  bmap-HasRoom s off n ne h sound (inr p) =
      let there = p off (omega arith) (omega arith) in
      rw (bmap-there sb (off / bsize) s (omega arith) there) (
        ends (record {
          found = refl;
          there = there;
          growth = Grown-mono sb s s 0 2 (omega arith) (Grown-refl sb s sound);
        }))

  next-HasRoom :
      (s u : View) (off n k : ℕ) (bytes : ℕ → ℕ)
      → suc (rounds (off + k) (n - k)) ≡ rounds off n
      → k ≤ n
      → off + n ≤ maxfile * bsize
      → Changes sb s u bytes
      → free_blocks sb s.disk ≤ free_blocks sb u.disk + 2
      → HasRoom s off n
      → HasRoom u (off + k) (n - k)
  next-HasRoom s u off n k bytes fewer l h c fr (inl f) = inl (omega arith)
  next-HasRoom s u off n k bytes fewer l h c fr (inr p) =
      inr (λ x lo hi. c.keeps (x / bsize) (omega arith) (p x (omega arith) (omega arith)))

  pub write_from-Wrote :
      (m off : ℕ) (src : List ℕ) (s : View)
      → length src < m
      → off + length src ≤ maxfile * bsize
      → Sound sb s
      → HasRoom s off (length src)
      → Ends (Wrote sb s off src) (write_from sb m off src s)
  unfolding write_from
  write_from-Wrote zero off src s l h sound f = absurd (omega arith)
  write_from-Wrote (suc m) off src s l h sound f =
      let n = length src in
      elim (same_or_not n 0) [
        | inl z ↦ simp (z) (
            ends (record {
              at_end = omega arith;
              sound = sound;
              covers = λ x lo hi. absurd (omega arith);
              changes =
                  Changes-bytes sb s s (byte_at s) _ (Changes-refl sb s)
                    (λ x _. sym (patched-out (byte_at s) off src x (omega arith)));
            }))
        | inr ne ↦
            let o : (n == 0) ≡ false = ground arith in
            let k = chunk off n in
            let (one, le, fit) = chunk-bounds off n ne in
            let lt = length-take k src in
            let ld = length-drop k src in
            let fewer = rounds_next off n ne in
            simp (o) (
              Ends-bind (bmap-HasRoom s off n ne h sound f) (λ a t found.
                let (so, c, fr, there) =
                  put_round-Round s t off a (take k src) (omega arith) (omega arith) found in
                Ends-mono
                  (write_from-Wrote m (off + k) (drop k src) _ (omega arith) (omega arith) so (
                    subst (λ (m : ℕ). HasRoom (put_round t off (take k src) a) (off + k) m) (sym ld)
                      (next-HasRoom s (put_round t off (take k src) a) off n k _ fewer le h c fr
                        f)))
                  (λ end u w. Wrote-round s _ u off k end src le (omega arith) fit there c w)))
      ]

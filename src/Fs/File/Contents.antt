-- ===== src/Fs/File/Contents.antt =====
-- fs.c: a whole `writei`, and a `readi` behind it.

use operating_systems_assign.Kernel.Ends.{Ends, Ends-bind, ends}
use mathlib.Core.Path.{subst}
use operating_systems_assign.Base.{
  List, ap, arith, false, if◌then◌else◌, inl, inr, length, ltb, refl, sym, true, ℕ, ◌%◌, ◌*◌, ◌+◌,
  ◌/◌, ◌<◌, ◌==◌, ◌∙◌, ◌≡◌, ◌≢◌, Bool-cases, leb, ◌&&◌, ◌-◌, ◌≤◌, ◌⊎◌, suc, ◌||◌,
}
use operating_systems_assign.Base.Int.{pos, ℤ}
use operating_systems_assign.CString.{Bytes}
use operating_systems_assign.Fs.{Super, bsize, maxfile, put_block, uint}
use operating_systems_assign.Fs.Alloc.Sound.{IsOther, in_use}
use operating_systems_assign.Fs.File.{
  View, dinode_byte, iblock, Inode, Devsw, iupdate, t_dev, write_end, writei, inode_bytes,
}
use operating_systems_assign.Fs.File.Mapping.{IsForeign, Sound, addr_of, byte_at, if_off, if_at}
use operating_systems_assign.Log.{maxopblocks}
use operating_systems_assign.Fs.File.Low.{low-Sound, low-addr, low-bytes}
use operating_systems_assign.Fs.File.Read.{IsCovered}
use operating_systems_assign.Fs.File.Patch.{patched}
use operating_systems_assign.Fs.File.Write.{Wrote, write_from-Wrote, HasRoom}

-- the bytes that `filewrite` gives to `writei` in one transaction, at most
abbrev pub op_bytes : ℕ
op_bytes = (maxopblocks - 1 - 1 - 2) / 2 * 512

-- What `writei` of some bytes at an offset within a file comes to: all of them are written, the size
-- covers them, and each block in use that is no block of the file stays, but for the inode's own.
pub record Written (sb : Super) (s : View) (src : List ℕ) (off : ℕ) (r : ℤ) (t : View)
    : Type 0 where
  pub result : r ≡ pos (length src)
  pub size : t.ip.size ≡ (if ltb s.ip.size (off + length src) then off + length src else s.ip.size)
  pub sound : Sound sb t
  pub covered : IsCovered t
  pub bytes : (x : ℕ) → x < maxfile * bsize → byte_at t x ≡ patched (byte_at s) off src x
  pub fields : t.ip ≡ record s.ip { addrs = t.ip.addrs; size = t.ip.size }
  pub others :
      (x : ℕ)
      → x < sb.size
      → in_use sb s.disk x ≡ true
      → IsForeign s x
      → IsOther sb x
      → x ≢ iblock sb s.ip.inum
      → t.disk x ≡ s.disk x
  pub on_disk :
      s.ip.size < off + length src
      → (i : ℕ) → i < 64
      → t.disk (iblock sb s.ip.inum) (s.ip.inum % 8 * 64 + i) ≡ dinode_byte t.ip i

module _ (sb : Super) (s : View) (src : List ℕ) (off : ℕ) (cover : IsCovered s)
    (start : off ≤ s.ip.size) (fit : off + length src ≤ maxfile * bsize)
    (front : iblock sb s.ip.inum < sb.bmapstart) where
  covered_to :
      (end : ℕ) (t : View)
      → Wrote sb s off src end t
      → (x : ℕ) → x < s.ip.size ⊎ (x < off + length src)
      → addr_of t (x / bsize) ≢ 0
  covered_to end t w x h = elim (Bool-cases (ltb x s.ip.size)) [
    | inl l ↦
        let k = cover.0 in w.changes.keeps (x / bsize) (ground arith) (cover.1 x (ground arith))
    | inr l ↦ w.covers x (ground arith) (elim h [ inl m ↦ absurd (ground arith) | inr m ↦ m ])
  ]

  Written-same :
      (end : ℕ) (t : View)
      → off + length src ≤ s.ip.size
      → Wrote sb s off src end t
      → Written sb s src off (pos (length src)) t
  Written-same end t h w =
      let z : t.ip.size ≡ s.ip.size = ap (λ (ip : Inode). ip.size) w.changes.fields in
      let k = cover.0 in
      record {
        result = refl;
        size = let o : ltb s.ip.size (off + length src) ≡ false = ground arith in simp (o) z;
        sound = w.sound;
        covered = (omega arith, λ x l. covered_to end t w x (inl (omega arith)));
        bytes = w.changes.contents;
        fields =
            w.changes.fields ∙ ap (λ (n : ℕ). record s.ip { addrs = t.ip.addrs; size = n }) (sym z);
        others = λ x l u f o ne. (w.changes.others x l u f).same o;
        on_disk = λ g. absurd (omega arith);
      }

  -- the state after the size is written
  abbrev grown_view : View → View
  grown_view t =
      let b = iblock sb t.ip.inum in
      let ip = record t.ip { size = off + length src } in
      record t { disk = put_block t.disk b (inode_bytes ip (t.disk b)); ip = ip }

  Written-grown :
      (end : ℕ) (t : View)
      → s.ip.size < off + length src
      → Wrote sb s off src end t
      → Written sb s src off (pos (length src)) (grown_view t)
  Written-grown end t h w =
      let n = off + length src in
      let j : t.ip.inum ≡ s.ip.inum = ap (λ (ip : Inode). ip.inum) w.changes.fields in
      let b = iblock sb t.ip.inum in
      let v = inode_bytes (record t.ip { size = n }) (t.disk b) in
      let front' : b < sb.bmapstart = omega arith in
      let u = grown_view t in
      record {
        result = refl;
        size = let o : ltb s.ip.size n ≡ true = ground arith in simp (o) refl;
        sound = low-Sound sb t b v n front' w.sound;
        covered = (
          fit,
          λ x l z.
              covered_to end t w x (inr l)
                (sym (low-addr sb t b v n front' w.sound (x / bsize)) ∙ z),
        );
        bytes = λ x l. low-bytes sb t b v n front' w.sound x l ∙ w.changes.contents x l;
        fields = ap (λ (ip : Inode). record ip { size = n }) w.changes.fields;
        others = λ x l used f o ne.
            if_off x b v (t.disk x) (λ q. ne (q ∙ ap (iblock sb) j))
            ∙ (w.changes.others x l used f).same o;
        on_disk = λ _ i m.
            let o : (leb (t.ip.inum % 8 * 64) (t.ip.inum % 8 * 64 + i)
                  && ltb (t.ip.inum % 8 * 64 + i) (t.ip.inum % 8 * 64 + 64))
                ≡ true =
              ground arith in
            let d : t.ip.inum % 8 * 64 + i - t.ip.inum % 8 * 64 ≡ i = omega arith in
            let here : v (t.ip.inum % 8 * 64 + i) ≡ dinode_byte u.ip i = simp (o, d) refl in
            subst (λ (m : ℕ). u.disk (iblock sb m) (m % 8 * 64 + i) ≡ dinode_byte u.ip i) j
              (ap (λ (w : Bytes). w (t.ip.inum % 8 * 64 + i)) (if_at b b v (t.disk b) refl) ∙ here);
      }

  write_end-Written :
      (end : ℕ) (t : View)
      → Wrote sb s off src end t
      → Ends (Written sb s src off) (write_end sb (length src) end t)
  unfolding write_end iupdate
  write_end-Written end t w =
      let e = w.at_end in
      let z : t.ip.size ≡ s.ip.size = ap (λ (ip : Inode). ip.size) w.changes.fields in
      elim (Bool-cases (ltb s.ip.size (off + length src))) [
        | inl l ↦
            let o : (ltb 0 (length src) && ltb t.ip.size end) ≡ true = ground arith in
            simp (o) (simp (e) (ends (Written-grown end t (ground arith) w)))
        | inr l ↦
            let o : (ltb 0 (length src) && ltb t.ip.size end) ≡ false = ground arith in
            simp (o) (ends (Written-same end t (ground arith) w))
      ]

-- As far as `log_write` takes its blocks: `writei` of no more bytes than `filewrite` gives it in
-- one transaction, within or at the end of a sound file without holes, below the largest size and
-- with its blocks there or room on the disk for those it may need, returns the number of its bytes.
-- The contents of the file are as before with the bytes written, its size covers them, and the
-- inode on the disk is the new one if the file has grown. The file stays sound and without holes,
-- and each block in use that is none of its own keeps its contents, but for the bitmap and the
-- inode's block.
pub writei-Written :
    (sb : Super) (dev : Devsw) (src : List ℕ) (off : ℕ) (s : View)
    → (big : sb.size < uint) → iblock sb s.ip.inum < sb.bmapstart
    → Sound sb s
    → IsCovered s
    → s.ip.type ≢ t_dev
    → off ≤ s.ip.size
    → off + length src ≤ maxfile * bsize
    → length src ≤ op_bytes
    → HasRoom sb big s off (length src)
    → Ends (Written sb s src off) (writei sb dev src off s)
unfolding writei
writei-Written sb dev src off s big front sound cover file start fit few room =
    let t : (s.ip.type == t_dev) ≡ false = ground arith in
    let a : (ltb s.ip.size off || ltb ((off + length src) % uint) off) ≡ false = ground arith in
    let b : ltb (maxfile * bsize) ((off + length src) % uint) ≡ false = ground arith in
    simp (t, a, b)
      (Ends-bind (write_from-Wrote sb big (suc (length src)) off src s (omega arith) fit sound room)
        (λ end u w. write_end-Written sb s src off cover start fit front end u w))

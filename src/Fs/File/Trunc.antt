-- ===== src/Fs/File/Trunc.antt =====
-- fs.c: `itrunc` as a whole.
use mathlib.Core.Path.{subst}
use operating_systems_assign.CString.{Bytes}
use operating_systems_assign.Fs.File.Freed.{FreedTo, FreedTo-zero}
use operating_systems_assign.Fs.File.Bmap.{on_disk-bind}
use operating_systems_assign.Base.{
  ap, arith, false, inl, inr, refl, sym, true, ℕ, ◌<◌, ◌==◌, ◌∙◌, ◌≡◌, ◌≢◌, ◌≤◌, leb, ltb, ◌%◌,
  ◌&&◌, ◌*◌, ◌+◌, ◌-◌,
}
use operating_systems_assign.Kernel.Ends.{Ends, Ends-bind, Ends-mono, ends}
use operating_systems_assign.Fs.{Disk, Super, maxfile, ndirect, nindirect, put_block}
use operating_systems_assign.Fs.Alloc.{bblock, bfree}
use operating_systems_assign.Fs.Alloc.Sound.{IsOther, bfree-Freed, in_use}
use operating_systems_assign.Fs.File.{
  Inode, View, free_indirect, iblock, inode_bytes, itrunc, iupdate, set_addr, dinode_byte,
}
use operating_systems_assign.Fs.File.Mapping.{
  IsForeign, Sound, addr_of, addr_of-direct, addr_of-none, if_at, if_off, indirect_of, is_direct,
  same_or_not,
}
use operating_systems_assign.Fs.File.Slots.{SlotsTo, free_slots-SlotsTo, free_words-FreedTo}

-- What `itrunc` comes to: the file is empty, in memory and on the disk, and its blocks are free. The
-- blocks other than the bitmap and the inode's are as they were.
pub record Truncated (sb : Super) (s t : View) : Type 0 where
  pub empty : t.ip.size ≡ 0
  pub gone : (bn : ℕ) → bn < maxfile → addr_of t bn ≡ 0
  pub no_indirect : indirect_of t ≡ 0
  pub fields : t.ip ≡ record s.ip { addrs = t.ip.addrs; size = 0 }
  pub freed : (bn : ℕ) → bn < maxfile → addr_of s bn ≢ 0 → in_use sb t.disk (addr_of s bn) ≡ false
  pub freed_indirect : indirect_of s ≢ 0 → in_use sb t.disk (indirect_of s) ≡ false
  pub kept : (x : ℕ) → IsForeign s x → in_use sb t.disk x ≡ in_use sb s.disk x
  pub same : (x : ℕ) → IsOther sb x → x < sb.size → x ≢ iblock sb s.ip.inum → t.disk x ≡ s.disk x
  pub on_disk :
      (i : ℕ) → i < 64 → t.disk (iblock sb s.ip.inum) (s.ip.inum % 8 * 64 + i) ≡ dinode_byte t.ip i

-- the state before the inode is written
record Cleared (sb : Super) (s u : View) : Type 0 where
  cleared : (j : ℕ) → j ≤ ndirect → u.ip.addrs j ≡ 0
  fields : u.ip ≡ record s.ip { addrs = u.ip.addrs }
  freed : (bn : ℕ) → bn < maxfile → addr_of s bn ≢ 0 → in_use sb u.disk (addr_of s bn) ≡ false
  freed_indirect : indirect_of s ≢ 0 → in_use sb u.disk (indirect_of s) ≡ false
  kept : (x : ℕ) → IsForeign s x → in_use sb u.disk x ≡ in_use sb s.disk x
  same : (x : ℕ) → IsOther sb x → x < sb.size → u.disk x ≡ s.disk x

module _ (sb : Super) (s : View) (sound : Sound sb s) where
  Cleared-none : (t : View) → SlotsTo sb s ndirect t → indirect_of s ≡ 0 → Cleared sb s t
  Cleared-none t h z =
      let absent : (bn : ℕ) → ndirect ≤ bn → addr_of s bn ≡ 0 = (λ bn l. addr_of-none s bn l z) in
      record {
        cleared = λ j l. elim (same_or_not j ndirect) [
          | inl e ↦ simp (e) (h.later ndirect (omega arith) ∙ z)
          | inr o ↦ h.cleared j (omega arith)
        ];
        fields = h.fields;
        freed = λ bn l ne. elim (is_direct bn) [
          | inl k ↦ h.disk.freed bn k ne
          | inr k ↦ absurd (ne (absent bn k))
        ];
        freed_indirect = λ ne. absurd (ne z);
        kept = λ x f. h.disk.kept x (λ bn l. f.not_block bn (omega arith));
        same = h.disk.same;
      }

  Cleared-words :
      (t : View) (d : Disk)
      → SlotsTo sb s ndirect t
      → indirect_of s ≢ 0
      → FreedTo sb s maxfile d
      → Ends
          (λ _ e. Cleared sb s (record t { disk = e; ip = set_addr ndirect 0 t.ip }))
          (bfree sb (indirect_of s) d)
  Cleared-words t d h ne f =
      let a = indirect_of s in
      let k = sound.file.indirect ne in
      let held : in_use sb d a ≡ true =
        f.kept a (λ bn l e. absurd (sound.file.aside bn l (λ z. ne (e ∙ z)) (sym e))) ∙ k.held in
      Ends-mono (bfree-Freed sb d a held) (λ _ e (bits, disk). record {
        cleared = λ j l. elim (same_or_not j ndirect) [
          | inl q ↦ if_at j ndirect 0 (t.ip.addrs j) q
          | inr q ↦ if_off j ndirect 0 (t.ip.addrs j) q ∙ h.cleared j (omega arith)
        ];
        fields =
            ap (λ (ip : Inode). set_addr ndirect 0 (record ip { addrs = t.ip.addrs })) h.fields;
        freed = λ bn l there.
            bits (addr_of s bn)
            ∙ if_off (addr_of s bn) a false _ (sound.file.aside bn l there)
            ∙ f.freed bn l there;
        freed_indirect = λ _. bits a ∙ if_at a a false _ refl;
        kept = λ x g. bits x ∙ if_off x a false _ g.not_indirect ∙ f.kept x g.not_block;
        same = λ x o m. disk x (let low = k.below in λ z. omega arith) ∙ f.same x o m;
      })

in_use-front :
    (sb : Super) (d : Disk) (b : ℕ) (v : Bytes) (x : ℕ)
    → b < sb.bmapstart
    → in_use sb (put_block d b v) x ≡ in_use sb d x
unfolding in_use
in_use-front sb d b v x l = let o : (bblock sb x == b) ≡ false = ground arith in simp (o) refl

-- the state after the empty inode is written
abbrev empty_view : Super → View → View
empty_view sb u =
    let ip = record u.ip { size = 0 } in
    let b = iblock sb u.ip.inum in
    record u { disk = put_block u.disk b (inode_bytes ip (u.disk b)); ip = ip }

Cleared-Truncated :
    (sb : Super) (s u : View)
    → iblock sb s.ip.inum < sb.bmapstart
    → Cleared sb s u
    → Truncated sb s (empty_view sb u)
Cleared-Truncated sb s u front h =
    let j : u.ip.inum ≡ s.ip.inum = ap (λ (ip : Inode). ip.inum) h.fields in
    let b = iblock sb u.ip.inum in
    let v = inode_bytes (record u.ip { size = 0 }) (u.disk b) in
    let low : b < sb.bmapstart = omega arith in
    record {
      empty = refl;
      gone = λ bn l. elim (is_direct bn) [
        | inl k ↦ addr_of-direct (empty_view sb u) bn k ∙ h.cleared bn (omega arith)
        | inr k ↦ addr_of-none (empty_view sb u) bn k (h.cleared ndirect (omega arith))
      ];
      no_indirect = h.cleared ndirect (omega arith);
      fields = ap (λ (ip : Inode). record ip { size = 0 }) h.fields;
      freed = λ bn l ne. in_use-front sb u.disk b v (addr_of s bn) low ∙ h.freed bn l ne;
      freed_indirect = λ ne. in_use-front sb u.disk b v (indirect_of s) low ∙ h.freed_indirect ne;
      kept = λ x f. in_use-front sb u.disk b v x low ∙ h.kept x f;
      same = λ x o l ne. if_off x b v (u.disk x) (λ q. ne (q ∙ ap (iblock sb) j)) ∙ h.same x o l;
      on_disk = λ i m.
          let o : (leb (u.ip.inum % 8 * 64) (u.ip.inum % 8 * 64 + i)
                && ltb (u.ip.inum % 8 * 64 + i) (u.ip.inum % 8 * 64 + 64))
              ≡ true =
            ground arith in
          let d : u.ip.inum % 8 * 64 + i - u.ip.inum % 8 * 64 ≡ i = omega arith in
          let here : v (u.ip.inum % 8 * 64 + i) ≡ dinode_byte (empty_view sb u).ip i =
            simp (o, d) refl in
          subst
            (λ (m : ℕ).
              (empty_view sb u).disk (iblock sb m) (m % 8 * 64 + i)
              ≡ dinode_byte (empty_view sb u).ip i)
            j (ap (λ (w : Bytes). w (u.ip.inum % 8 * 64 + i)) (if_at b b v (u.disk b) refl) ∙ here);
    }

free_indirect-Cleared :
    (sb : Super) (s : View)
    → Sound sb s
    → (t : View) → SlotsTo sb s ndirect t
    → Ends (λ _ u. Cleared sb s u) (free_indirect sb t)
unfolding free_indirect
free_indirect-Cleared sb s sound t h =
    let same = h.later ndirect (omega arith) in
    elim (same_or_not (indirect_of s) 0) [
      | inl z ↦
          let o : (t.ip.addrs 11 == 0) ≡ true = ground arith in
          simp (o) (ends (Cleared-none sb s sound t h z))
      | inr ne ↦
          let o : (t.ip.addrs 11 == 0) ≡ false = ground arith in
          simp (o) (
            simp (same) (
              Ends-bind (free_words-FreedTo sb s sound nindirect 0 t (omega arith) ne h.disk)
                (λ _ u (f, q). on_disk-bind u _ (Cleared-words sb s sound t u.disk h ne f) (λ _ e c.
                  ends (
                    subst
                      (λ (ip : Inode).
                        Cleared sb s (record u { disk = e; ip = set_addr ndirect 0 ip }))
                      (sym q) c)))))
    ]

-- `itrunc` of a sound file returns; then the file is empty, its inode on the disk is the new one, its
-- blocks and its indirect block are free, and each block that is none of them is in use if it was.
-- The contents of all blocks but the bitmap and the inode's block stay.
pub itrunc-Truncated :
    (sb : Super) (s : View)
    → Sound sb s
    → iblock sb s.ip.inum < sb.bmapstart
    → Ends (λ _ t. Truncated sb s t) (itrunc sb s)
unfolding itrunc iupdate
itrunc-Truncated sb s sound front =
    let start : SlotsTo sb s 0 s = record {
      disk = FreedTo-zero sb s sound;
      cleared = λ j l. absurd (omega arith);
      later = λ j l. refl;
      fields = refl;
    } in
    Ends-bind (free_slots-SlotsTo sb s sound ndirect 0 s (omega arith) start) (λ _ t h.
      Ends-bind (free_indirect-Cleared sb s sound t h)
        (λ _ u c. ends (Cleared-Truncated sb s u front c)))

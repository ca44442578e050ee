-- ===== src/Fs/File/Low.antt =====
-- fs.c: a file while `iupdate` writes its inode.
use operating_systems_assign.Base.{
  ap, arith, false, inl, inr, refl, sym, ℕ, ◌%◌, ◌*◌, ◌/◌, ◌<◌, ◌==◌, ◌∙◌, ◌≡◌,
}
use operating_systems_assign.CString.{Bytes}
use operating_systems_assign.Fs.{Super, bsize, maxfile, put_block}
use operating_systems_assign.Fs.Alloc.{bblock}
use operating_systems_assign.Fs.Alloc.Sound.{in_use}
use operating_systems_assign.Fs.File.{View}
use operating_systems_assign.Fs.File.Mapping.{
  IsData, Sound, addr_of, addr_of-direct, byte_at, byte_at-absent, byte_at-there, if_off, is_direct,
  same-words, same_or_not,
}

module _ (sb : Super) (s : View) (b : ℕ) (v : Bytes) (n : ℕ) (low : b < sb.bmapstart)
    (sound : Sound sb s) where
  -- the state with the size `n` and a block replaced that stands before the bitmap
  abbrev pub low_view : View
  low_view = record s { disk = put_block s.disk b v; ip = record s.ip { size = n } }

  pub low-in_use : (x : ℕ) → in_use sb low_view.disk x ≡ in_use sb s.disk x
  unfolding in_use
  low-in_use x = let o : (bblock sb x == b) ≡ false = ground arith in simp (o) refl

  low-data : (x : ℕ) → IsData sb s.disk x → low_view.disk x ≡ s.disk x
  low-data x h = let q = h.behind in if_off x b v (s.disk x) (omega arith)

  pub low-addr : (bm : ℕ) → addr_of low_view bm ≡ addr_of s bm
  low-addr bm = elim (is_direct bm) [
    | inl k ↦ addr_of-direct low_view bm k ∙ sym (addr_of-direct s bm k)
    | inr k ↦ same-words s low_view bm k refl (λ ne. low-data _ (sound.file.indirect ne))
  ]

  low-IsData : (x : ℕ) → IsData sb s.disk x → IsData sb low_view.disk x
  low-IsData x h = record { below = h.below; behind = h.behind; held = low-in_use x ∙ h.held }

  pub low-Sound : Sound sb low_view
  low-Sound =
      let e = low-addr in
      record {
        reserved = λ x m. low-in_use x ∙ sound.reserved x m;
        file = record {
          blocks =
              λ bm m ne. simp (e bm) (low-IsData _ (sound.file.blocks bm m (λ z. ne (e bm ∙ z))));
          indirect = λ ne. low-IsData _ (sound.file.indirect ne);
          once = λ bm bk m k ne q.
              sound.file.once bm bk m k (λ z. ne (e bm ∙ z)) (sym (e bm) ∙ q ∙ e bk);
          aside = λ bm m ne q. sound.file.aside bm m (λ z. ne (e bm ∙ z)) (sym (e bm) ∙ q);
        };
      }

  pub low-bytes : (off : ℕ) → off < maxfile * bsize → byte_at low_view off ≡ byte_at s off
  low-bytes off m =
      let e = low-addr (off / bsize) in
      elim (same_or_not (addr_of s (off / bsize)) 0) [
        | inl z ↦ byte_at-absent low_view off (e ∙ z) ∙ sym (byte_at-absent s off z)
        | inr ne ↦
            byte_at-there low_view off (λ z. ne (sym e ∙ z))
            ∙ ap (λ (x : ℕ). low_view.disk x (off % bsize)) e
            ∙ ap (λ (w : Bytes). w (off % bsize))
                (low-data _ (sound.file.blocks _ (omega arith) ne))
            ∙ sym (byte_at-there s off ne)
      ]

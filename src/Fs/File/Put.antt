-- ===== src/Fs/File/Put.antt =====
-- fs.c: a block of a file replaced, as a round of `writei` does it.
use operating_systems_assign.Fs.File.Place.{in_use-aside}
use operating_systems_assign.Base.{
  if◌then◌else◌, inl, inr, refl, sym, ℕ, ◌%◌, ◌*◌, ◌/◌, ◌<◌, ◌==◌, ◌∙◌, ◌≡◌, ◌≢◌, ap, arith,
}
use operating_systems_assign.CString.{Bytes}
use operating_systems_assign.Fs.{Super, bsize, maxfile, put_block}
use operating_systems_assign.Fs.Alloc.Sound.{in_use}
use operating_systems_assign.Fs.File.{View}
use operating_systems_assign.Fs.File.Mapping.{
  Changes, Sound, addr_of, addr_of-direct, byte_at, if_off, indirect_of, is_direct, same-words,
  IsData, byte_at-absent, byte_at-there, if_at, same_or_not,
}

module _ (sb : Super) (s : View) (sound : Sound sb s) (bn : ℕ) (l : bn < maxfile)
    (there : addr_of s bn ≢ 0) (v : Bytes) where
  -- the state with the bytes `v` in the block `bn` of the file
  abbrev pub put_view : View
  put_view = record s { disk = put_block s.disk (addr_of s bn) v }

  pub put-in_use : (x : ℕ) → x < sb.size → in_use sb put_view.disk x ≡ in_use sb s.disk x
  put-in_use x m = in_use-aside sb s.disk (addr_of s bn) v x m (sound.file.blocks bn l there).behind

  pub put-addr : (bm : ℕ) → addr_of put_view bm ≡ addr_of s bm
  put-addr bm = elim (is_direct bm) [
    | inl k ↦ addr_of-direct put_view bm k ∙ sym (addr_of-direct s bm k)
    | inr k ↦ same-words s put_view bm k refl (λ ne.
        if_off (indirect_of s) (addr_of s bn) v (s.disk (indirect_of s))
          (λ q. sound.file.aside bn l there (sym q)))
  ]

  put-IsData : (x : ℕ) → IsData sb s.disk x → IsData sb put_view.disk x
  put-IsData x h = record {
    below = h.below;
    behind = h.behind;
    held = put-in_use x h.below ∙ h.held;
  }

  pub put-Sound : Sound sb put_view
  put-Sound =
      let d = sound.file.blocks bn l there in
      let low = d.below in
      let high = d.behind in
      let e = put-addr in
      record {
        reserved = λ x m. put-in_use x (omega arith) ∙ sound.reserved x m;
        file = record {
          blocks =
              λ bm m ne. simp (e bm) (put-IsData _ (sound.file.blocks bm m (λ z. ne (e bm ∙ z))));
          indirect = λ ne. put-IsData _ (sound.file.indirect ne);
          once = λ bm bk m k ne q.
              sound.file.once bm bk m k (λ z. ne (e bm ∙ z)) (sym (e bm) ∙ q ∙ e bk);
          aside = λ bm m ne q. sound.file.aside bm m (λ z. ne (e bm ∙ z)) (sym (e bm) ∙ q);
        };
      }

  put-same : (x : ℕ) → x ≢ addr_of s bn → put_view.disk x ≡ s.disk x
  put-same x ne = if_off x (addr_of s bn) v (s.disk x) ne

  put-bytes :
      (off : ℕ)
      → off < maxfile * bsize
      → byte_at put_view off ≡ (if off / bsize == bn then v (off % bsize) else byte_at s off)
  put-bytes off m =
      let e = put-addr (off / bsize) in
      elim (same_or_not (off / bsize) bn) [
        | inl q ↦
            let here : addr_of put_view (off / bsize) ≡ addr_of s bn = e ∙ ap (addr_of s) q in
            byte_at-there put_view off (λ z. there (sym here ∙ z))
            ∙ ap (λ (x : ℕ). put_view.disk x (off % bsize)) here
            ∙ ap (λ (w : Bytes). w (off % bsize))
                (if_at (addr_of s bn) (addr_of s bn) v (s.disk (addr_of s bn)) refl)
            ∙ sym (if_at (off / bsize) bn (v (off % bsize)) (byte_at s off) q)
        | inr q ↦ elim (same_or_not (addr_of s (off / bsize)) 0) [
          | inl z ↦
              byte_at-absent put_view off (e ∙ z)
              ∙ sym (byte_at-absent s off z)
              ∙ sym (if_off (off / bsize) bn (v (off % bsize)) (byte_at s off) q)
          | inr ne ↦
              byte_at-there put_view off (λ z. ne (sym e ∙ z))
              ∙ ap (λ (x : ℕ). put_view.disk x (off % bsize)) e
              ∙ ap (λ (w : Bytes). w (off % bsize))
                  (put-same _ (λ r. q (sound.file.once _ bn (omega arith) l ne r)))
              ∙ sym (byte_at-there s off ne)
              ∙ sym (if_off (off / bsize) bn (v (off % bsize)) (byte_at s off) q)
        ]
      ]

  pub put-Changes :
      Changes sb s put_view (λ off. if off / bsize == bn then v (off % bsize) else byte_at s off)
  put-Changes = record {
    contents = put-bytes;
    fields = refl;
    keeps = λ bm m n q. n (sym (put-addr bm) ∙ q);
    others = λ x m used f. record {
      foreign = record {
        not_indirect = f.not_indirect;
        not_block = λ bm k q. f.not_block bm k (q ∙ put-addr bm);
      };
      used = put-in_use x m ∙ used;
      same = λ _. put-same x (f.not_block bn l);
    };
  }

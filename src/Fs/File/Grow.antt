-- ===== src/Fs/File/Grow.antt =====
-- fs.c: a file with one block more.
use operating_systems_assign.CString.{Bytes}
use operating_systems_assign.Fs.Alloc.Sound.{Reserved, in_use}
use operating_systems_assign.Base.{
  arith, refl, true, ℕ, ◌<◌, ◌==◌, ◌∙◌, ◌≡◌, ◌≢◌, Bool-cases, inl, inr, sym, ◌*◌, ◌⊎◌, ap, ◌%◌, ◌/◌,
}
use operating_systems_assign.Fs.{Super, maxfile, bsize}
use operating_systems_assign.Fs.File.{View}
use operating_systems_assign.Fs.File.Mapping.{
  IsData, Placed, Sound, addr_of, Changes, IsForeign, Stays, byte_at, free-behind, free-other,
  indirect_of, IsData-IsOther, byte_at-absent, byte_at-there,
}

module _ (sb : Super) (s t : View) (bn b : ℕ) (n : bn < maxfile) (sound : Sound sb s)
    (p : Placed sb s t bn b) where
  at_new :
      (bm : ℕ) → bm < maxfile → ((bm ≡ bn) × (addr_of t bm ≡ b)) ⊎ (addr_of t bm ≡ addr_of s bm)
  at_new bm m =
      let e = p.addrs bm m in
      elim (Bool-cases (bm == bn)) [
        | inl o ↦ inl (ground arith, e ∙ simp (o) refl)
        | inr o ↦ inr (e ∙ simp (o) refl)
      ]

  Placed-IsData : (x : ℕ) → IsData sb s.disk x → IsData sb t.disk x
  Placed-IsData x h =
      let u = p.used x h.below in
      let k = h.held in record { below = h.below; behind = h.behind; held = ground (arith, u, k) }

  Placed-new : IsData sb t.disk b
  Placed-new =
      let u = p.used b p.in_size in
      record {
        below = p.in_size;
        behind = free-behind sb s.disk sound.reserved b p.was_free;
        held = ground (arith, u);
      }

  Placed-block : (bm : ℕ) → bm < maxfile → addr_of t bm ≢ 0 → IsData sb t.disk (addr_of t bm)
  Placed-block bm m ne = elim (at_new bm m) [
    | inl (_, e) ↦ simp (e) Placed-new
    | inr e ↦ simp (e) (Placed-IsData (addr_of s bm) (sound.file.blocks bm m (λ z. ne (e ∙ z))))
  ]

  -- no block of the file was free
  block-other : (bm : ℕ) → bm < maxfile → addr_of s bm ≢ 0 → addr_of s bm ≢ b
  block-other bm m ne =
      free-other sb s.disk sound.reserved b p.was_free _ (sound.file.blocks bm m ne).held

  once-new :
      (bm bk : ℕ)
      → bm < maxfile
      → bk < maxfile
      → addr_of t bm ≢ 0
      → addr_of t bm ≡ addr_of t bk
      → bm ≡ bk
  once-new bm bk m k ne e = elim (at_new bm m) [
    | inl (i, a) ↦ elim (at_new bk k) [
      | inl (j, c) ↦ i ∙ sym j
      | inr c ↦
          let q : addr_of s bk ≡ b = sym c ∙ sym e ∙ a in
          absurd (block-other bk k (λ z. ne (e ∙ c ∙ z)) q)
    ]
    | inr a ↦ elim (at_new bk k) [
      | inl (j, c) ↦ absurd (block-other bm m (λ z. ne (a ∙ z)) (sym a ∙ e ∙ c))
      | inr c ↦ sound.file.once bm bk m k (λ z. ne (a ∙ z)) (sym a ∙ e ∙ c)
    ]
  ]

  indirect-other : indirect_of s ≢ b
  indirect-other e =
      let l = free-behind sb s.disk sound.reserved b p.was_free in
      elim (Bool-cases (indirect_of s == 0)) [
        | inl z ↦ absurd (ground arith)
        | inr o ↦
            free-other sb s.disk sound.reserved b p.was_free _
              (sound.file.indirect (ground arith)).held e
      ]

  aside-new : (bm : ℕ) → bm < maxfile → addr_of t bm ≢ 0 → addr_of t bm ≢ indirect_of t
  aside-new bm m ne e = elim (at_new bm m) [
    | inl (i, a) ↦ indirect-other (sym p.same_indirect ∙ sym e ∙ a)
    | inr a ↦ sound.file.aside bm m (λ z. ne (a ∙ z)) (sym a ∙ e ∙ p.same_indirect)
  ]

  Placed-indirect : indirect_of t ≢ 0 → IsData sb t.disk (indirect_of t)
  Placed-indirect ne =
      simp (p.same_indirect)
        (Placed-IsData (indirect_of s) (sound.file.indirect (λ z. ne (p.same_indirect ∙ z))))

  Placed-Reserved : Reserved sb t.disk
  Placed-Reserved x l =
      let u = p.used x in
      let r = sound.reserved x l in
      let v = free-behind sb s.disk sound.reserved b p.was_free in
      let q = u (ground arith) in ground (arith, q, r)

  pub Placed-Sound : Sound sb t
  Placed-Sound = record {
    reserved = Placed-Reserved;
    file = record {
      blocks = Placed-block;
      indirect = Placed-indirect;
      once = once-new;
      aside = aside-new;
    };
  }

  Placed-bytes : (off : ℕ) → off < maxfile * bsize → byte_at t off ≡ byte_at s off
  Placed-bytes off l =
      let bm = off / bsize in
      let m : bm < maxfile = omega arith in
      let v = free-behind sb s.disk sound.reserved b p.was_free in
      elim (at_new bm m) [
        | inl (i, a) ↦
            byte_at-there t off (λ z. absurd (ground (arith, a, z, v)))
            ∙ ap (λ (c : ℕ). t.disk c (off % bsize)) a
            ∙ p.zeroed (off % bsize) (omega arith)
            ∙ sym (byte_at-absent s off (ap (addr_of s) i ∙ p.was_absent))
        | inr a ↦ elim (Bool-cases (addr_of s bm == 0)) [
          | inl z ↦
              let z' : addr_of s bm ≡ 0 = ground arith in
              byte_at-absent t off (a ∙ z') ∙ sym (byte_at-absent s off z')
          | inr o ↦
              let ne : addr_of s bm ≢ 0 = ground arith in
              let w =
                p.same (addr_of s bm) (block-other bm m ne) (sound.file.aside bm m ne)
                  (IsData-IsOther sb s.disk _ (sound.file.blocks bm m ne)) in
              byte_at-there t off (λ z. ne (sym a ∙ z))
              ∙ ap (λ (c : ℕ). t.disk c (off % bsize)) a
              ∙ ap (λ (c : Bytes). c (off % bsize)) w
              ∙ sym (byte_at-there s off ne)
        ]
      ]

  Placed-others : (x : ℕ) → x < sb.size → in_use sb s.disk x ≡ true → IsForeign s x → Stays sb s t x
  Placed-others x l u f =
      let o : x ≢ b = free-other sb s.disk sound.reserved b p.was_free x u in
      record {
        foreign = record {
          not_indirect = λ e. f.not_indirect (e ∙ p.same_indirect);
          not_block = λ bm m e. elim (at_new bm m) [
            | inl (_, a) ↦ o (e ∙ a)
            | inr a ↦ f.not_block bm m (e ∙ a)
          ];
        };
        used = let q = p.used x l in ground (arith, q, u);
        same = λ r. p.same x o f.not_indirect r;
      }

  pub Placed-Changes : Changes sb s t (byte_at s)
  Placed-Changes = record {
    contents = Placed-bytes;
    fields = p.fields;
    others = Placed-others;
    keeps = λ bm m ne z. elim (at_new bm m) [
      | inl (e, _) ↦ ne (ap (addr_of s) e ∙ p.was_absent)
      | inr e ↦ ne (sym e ∙ z)
    ];
  }

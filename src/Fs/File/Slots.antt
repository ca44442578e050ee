-- ===== src/Fs/File/Slots.antt =====
-- fs.c: the loops of `itrunc` over the slots and over the words of the indirect block.
use mathlib.Core.Path.{subst}
use operating_systems_assign.CString.{Bytes}
use operating_systems_assign.Fs.File.Freed.{FreedTo, FreedTo-next, FreedTo-skip}
use operating_systems_assign.Fs.File.Bmap.{on_disk-bind}
use operating_systems_assign.Base.{
  ap, arith, false, inl, inr, refl, suc, sym, true, zero, ℕ, ◌+◌, ◌-◌, ◌<◌, ◌==◌, ◌∙◌, ◌≡◌, ◌≢◌,
  ◌≤◌,
}
use operating_systems_assign.Kernel.Ends.{Ends, Ends-mono, ends}
use operating_systems_assign.Fs.{Disk, Super, maxfile, ndirect, nindirect, word_at}
use operating_systems_assign.Fs.Alloc.{bfree}
use operating_systems_assign.Fs.File.{Inode, View, free_slots, free_words, set_addr}
use operating_systems_assign.Fs.File.Mapping.{
  IsData-IsOther, Sound, addr_of, addr_of-direct, addr_of-word, if_at, if_off, indirect_of,
  same_or_not,
}

-- The slots below `i` of the inode are cleared, and their blocks free.
pub record SlotsTo (sb : Super) (s : View) (i : ℕ) (t : View) : Type 0 where
  pub disk : FreedTo sb s i t.disk
  pub cleared : (j : ℕ) → j < i → t.ip.addrs j ≡ 0
  pub later : (j : ℕ) → i ≤ j → t.ip.addrs j ≡ s.ip.addrs j
  pub fields : t.ip ≡ record s.ip { addrs = t.ip.addrs }

module _ (sb : Super) (s : View) (sound : Sound sb s) where
  SlotsTo-set :
      (i : ℕ) (t : View) (e : Disk)
      → SlotsTo sb s i t
      → FreedTo sb s (suc i) e
      → SlotsTo sb s (suc i) (record t { disk = e; ip = set_addr i 0 t.ip })
  SlotsTo-set i t e h f = record {
    disk = f;
    cleared = λ j l. elim (same_or_not j i) [
      | inl q ↦ if_at j i 0 (t.ip.addrs j) q
      | inr q ↦ if_off j i 0 (t.ip.addrs j) q ∙ h.cleared j (omega arith)
    ];
    later = λ j l. if_off j i 0 (t.ip.addrs j) (omega arith) ∙ h.later j (omega arith);
    fields = ap (λ (ip : Inode). set_addr i 0 (record ip { addrs = t.ip.addrs })) h.fields;
  }

  pub free_slots-SlotsTo :
      (m i : ℕ) (t : View)
      → i + m ≡ ndirect
      → SlotsTo sb s i t
      → Ends (λ _ u. SlotsTo sb s ndirect u) (free_slots sb i m t)
  unfolding free_slots
  free_slots-SlotsTo zero i t e h = ends (subst (λ (x : ℕ). SlotsTo sb s x t) (omega arith) h)
  free_slots-SlotsTo (suc m) i t e h =
      let same = h.later i (omega arith) in
      let d = addr_of-direct s i (omega arith) in
      elim (same_or_not (s.ip.addrs i) 0) [
        | inl z ↦
            let o : (t.ip.addrs i == 0) ≡ true = ground arith in
            simp (o) (
              free_slots-SlotsTo m (suc i) t (omega arith) (record {
                disk = FreedTo-skip sb s sound i t.disk (d ∙ z) h.disk;
                cleared = λ j l. elim (same_or_not j i) [
                  | inl q ↦ simp (q) (same ∙ z)
                  | inr q ↦ h.cleared j (omega arith)
                ];
                later = λ j l. h.later j (omega arith);
                fields = h.fields;
              }))
        | inr ne ↦
            let o : (t.ip.addrs i == 0) ≡ false = ground arith in
            let f = FreedTo-next sb s sound i t.disk (omega arith) (λ z. ne (sym d ∙ z)) h.disk in
            simp (o) (
              on_disk-bind t _
                (subst (λ (x : ℕ). Ends (λ _ e. FreedTo sb s (suc i) e) (bfree sb x t.disk))
                  (d ∙ sym same) f)
                (λ _ d' g. free_slots-SlotsTo m (suc i) _ (omega arith) (SlotsTo-set i t d' h g)))
      ]

  pub free_words-FreedTo :
      (m j : ℕ) (t : View)
      → j + m ≡ nindirect
      → indirect_of s ≢ 0
      → FreedTo sb s (ndirect + j) t.disk
      → Ends
          (λ _ u. FreedTo sb s maxfile u.disk × (u.ip ≡ t.ip))
          (free_words sb (indirect_of s) j m t)
  unfolding free_words
  free_words-FreedTo zero j t e ne h =
      ends (subst (λ (x : ℕ). FreedTo sb s x t.disk) (omega arith) h, refl)
  free_words-FreedTo (suc m) j t e ne h =
      let a = indirect_of s in
      let k = sound.file.indirect ne in
      let q : ndirect + j - ndirect ≡ j = omega arith in
      let w : addr_of s (ndirect + j) ≡ word_at (t.disk a) j =
        addr_of-word s (ndirect + j) (omega arith) ne
        ∙ ap (word_at (s.disk a)) q
        ∙ ap (λ (v : Bytes). word_at v j) (sym (h.same a (IsData-IsOther sb s.disk a k) k.below)) in
      let p : suc (ndirect + j) ≡ ndirect + suc j = omega arith in
      elim (same_or_not (addr_of s (ndirect + j)) 0) [
        | inl z ↦ simp (sym w ∙ z) (
            free_words-FreedTo m (suc j) t (omega arith) ne (
              subst (λ (x : ℕ). FreedTo sb s x t.disk) p
                (FreedTo-skip sb s sound (ndirect + j) t.disk z h)))
        | inr there ↦
            let o : (word_at (t.disk a) j == 0) ≡ false = ground arith in
            let f = FreedTo-next sb s sound (ndirect + j) t.disk (omega arith) there h in
            simp (o) (
              on_disk-bind t _
                (subst
                  (λ (x : ℕ). Ends (λ _ e. FreedTo sb s (suc (ndirect + j)) e) (bfree sb x t.disk))
                  w f)
                (λ _ d' g.
                  Ends-mono
                    (free_words-FreedTo m (suc j) (record t { disk = d' }) (omega arith) ne
                      (subst (λ (x : ℕ). FreedTo sb s x d') p g))
                    (λ _ u r. r)))
      ]

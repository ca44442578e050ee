-- ===== src/Fs/File/Bmap.antt =====
-- fs.c: `bmap`, on a block that is there and on one that is not.
use mathlib.Core.Path.{subst}
use operating_systems_assign.Base.{
  arith, false, inl, inr, ltb, refl, true, ℕ, ◌-◌, ◌<◌, ◌==◌, ◌∙◌, ◌≡◌, ◌≢◌, ◌≤◌, ap, ◌+◌, sym,
}
use operating_systems_assign.Kernel.{Cmd, Run, and_then, done}
use operating_systems_assign.Kernel.Ends.{Ends, ends, Ends-bind, Ends-mono}
use operating_systems_assign.Fs.{Disk, Super, maxfile, ndirect, nindirect, uint, word_at, put_word}
use operating_systems_assign.Fs.Alloc.Room.{balloc-Ends, free_blocks, free_below-eq}
use operating_systems_assign.Fs.File.{View, bmap, slot_addr, with_disk, word_addr}
use operating_systems_assign.Fs.File.Mapping.{
  Sound, addr_of, addr_of-direct, addr_of-none, free-behind, if_at, indirect_of, is_direct,
  same_or_not, addr_of-word,
}
use operating_systems_assign.Fs.File.Place.{direct-Placed, word-Placed, in_use-aside}
use operating_systems_assign.Fs.File.Indirect.{
  Grown, Placed-Grown, Grown-mono, Grown-refl, indirect-Grown, Grown-trans,
}

pub on_disk-bind :
    {A B : Type 0} {P : A → Disk → Type 0} {Q : B → View → Type 0} (s : View) {r : Run Disk A}
    (k : A → Cmd View B)
    → Ends P r
    → ((a : A) (e : Disk) → P a e → Ends Q (k a (record s { disk = e })))
    → Ends Q (and_then (with_disk s r) k)
on_disk-bind s k (ends p) next = next _ _ p

-- The run that found `a` as the block `bn` of the file took at most `k` free blocks.
pub record Found (sb : Super) (s : View) (bn k a : ℕ) (t : View) : Type 0 where
  pub found : addr_of t bn ≡ a
  pub there : a ≢ 0
  pub growth : Grown sb s t k

-- A block that is there is found, and nothing changes.
pub bmap-there :
    (sb : Super) (bn : ℕ) (s : View)
    → bn < maxfile
    → addr_of s bn ≢ 0
    → bmap sb bn s ≡ done (addr_of s bn) s
unfolding bmap slot_addr word_addr addr_of
bmap-there sb bn s l ne = elim (is_direct bn) [
  | inl k ↦
      let o : ltb bn ndirect ≡ true = ground arith in
      let z : (s.ip.addrs bn == 0) ≡ false = (let e = addr_of-direct s bn k in ground arith) in
      simp (o, z) refl
  | inr k ↦
      let o : ltb bn ndirect ≡ false = ground arith in
      let m : ltb (bn - ndirect) nindirect ≡ true = ground arith in
      let i : indirect_of s ≢ 0 = (λ q. ne (addr_of-none s bn k q)) in
      let z : (indirect_of s == 0) ≡ false = ground arith in
      let w : (word_at (s.disk (indirect_of s)) (bn - ndirect) == 0) ≡ false =
        (let e = addr_of-word s bn k i in ground arith) in
      simp (o, m, z, w) refl
]

module _ (sb : Super) (big : sb.size < uint) (s : View) (sound : Sound sb s) where
  slot_addr-direct :
      (bn : ℕ)
      → bn < ndirect
      → 1 ≤ free_blocks sb s.disk
      → Ends (Found sb s bn 1) (slot_addr sb bn s)
  unfolding slot_addr
  slot_addr-direct bn l f = elim (same_or_not (s.ip.addrs bn) 0) [
    | inl z ↦ simp (z) (
        on_disk-bind s _ (balloc-Ends sb s.disk sound.reserved f) (λ b e (al, one).
          let p = direct-Placed sb s sound e b al bn l z in
          let v = free-behind sb s.disk sound.reserved b al.was_free in
          ends (record {
            found = p.addrs bn (omega arith) ∙ if_at bn bn b _ refl;
            there = λ q. omega arith;
            growth = Placed-Grown sb big s sound e b al one _ bn (omega arith) p refl;
          })))
    | inr ne ↦
        let z : (s.ip.addrs bn == 0) ≡ false = ground arith in
        simp (z) (
          ends (record {
            found = addr_of-direct s bn l;
            there = ne;
            growth = Grown-mono sb s s 0 1 (omega arith) (Grown-refl sb s sound);
          }))
  ]

  slot_addr-indirect :
      1 ≤ free_blocks sb s.disk
      → Ends (λ a t. (indirect_of t ≡ a) × (a ≢ 0) × Grown sb s t 1) (slot_addr sb ndirect s)
  unfolding slot_addr
  slot_addr-indirect f = elim (same_or_not (indirect_of s) 0) [
    | inl z ↦ simp (z) (
        on_disk-bind s _ (balloc-Ends sb s.disk sound.reserved f) (λ b e (al, one).
          let v = free-behind sb s.disk sound.reserved b al.was_free in
          ends (refl, (λ q. omega arith), indirect-Grown sb big s sound e b al one z)))
    | inr ne ↦
        let z : (indirect_of s == 0) ≡ false = ground arith in
        simp (z) (ends (refl, ne, Grown-mono sb s s 0 1 (omega arith) (Grown-refl sb s sound)))
  ]

  word_addr-Found :
      (i : ℕ)
      → i < nindirect
      → indirect_of s ≢ 0
      → 1 ≤ free_blocks sb s.disk
      → Ends (Found sb s (ndirect + i) 1) (word_addr sb i (indirect_of s) s)
  unfolding word_addr
  word_addr-Found i l ne f =
      let w = word_at (s.disk (indirect_of s)) i in
      let q : ndirect + i - ndirect ≡ i = omega arith in
      elim (same_or_not w 0) [
        | inl z ↦ simp (z) (
            on_disk-bind s _ (balloc-Ends sb s.disk sound.reserved f) (λ b e (al, one).
              let p = word-Placed sb s sound e b al i l ne z big in
              let v = free-behind sb s.disk sound.reserved b al.was_free in
              let h = sound.file.indirect ne in
              ends (record {
                found =
                    p.addrs (ndirect + i) (omega arith)
                    ∙ if_at (ndirect + i) (ndirect + i) b _ refl;
                there = λ q. omega arith;
                growth = Placed-Grown sb big s sound e b al one _ (ndirect + i) (omega arith) p (
                    free_below-eq sb e _ sb.size
                      (λ x m. in_use-aside sb e _ (put_word (e (indirect_of s)) i b) x m h.behind));
              })))
        | inr nw ↦
            let z : (w == 0) ≡ false = ground arith in
            simp (z) (
              ends (record {
                found =
                    addr_of-word s (ndirect + i) (omega arith) ne
                    ∙ ap (word_at (s.disk (indirect_of s))) q;
                there = nw;
                growth = Grown-mono sb s s 0 1 (omega arith) (Grown-refl sb s sound);
              }))
      ]

Found-far :
    (sb : Super) (s t : View) (bn : ℕ) (r : Run View ℕ)
    → Grown sb s t 1
    → Ends (Found sb t bn 1) r
    → Ends (Found sb s bn 2) r
Found-far sb s t bn r g h = Ends-mono h (λ a u f. record {
  found = f.found;
  there = f.there;
  growth = Grown-trans sb s t u 1 1 g f.growth;
})

-- With two free blocks `bmap` returns a block of the file for each number up to the largest.
pub bmap-Found :
    (sb : Super)
    → sb.size < uint
    → (s : View) → Sound sb s
    → (bn : ℕ) → bn < maxfile
    → 2 ≤ free_blocks sb s.disk
    → Ends (Found sb s bn 2) (bmap sb bn s)
unfolding bmap
bmap-Found sb big s sound bn l f = elim (is_direct bn) [
  | inl k ↦
      let o : ltb bn ndirect ≡ true = ground arith in
      simp (o) (
        Ends-mono (slot_addr-direct sb big s sound bn k (omega arith)) (λ a t h. record {
          found = h.found;
          there = h.there;
          growth = Grown-mono sb s t 1 2 (omega arith) h.growth;
        }))
  | inr k ↦
      let o : ltb bn ndirect ≡ false = ground arith in
      let m : ltb (bn - ndirect) nindirect ≡ true = ground arith in
      let q : ndirect + (bn - ndirect) ≡ bn = omega arith in
      simp (o, m)
        (Ends-bind (slot_addr-indirect sb big s sound (omega arith)) (λ a t (e, ne, g).
          let left = g.taken in
          let w =
            word_addr-Found sb big t g.sound (bn - ndirect) (omega arith) (λ z. ne (sym e ∙ z))
              (omega arith) in
          Found-far sb s t bn _ g (
            subst (λ (x : ℕ). Ends (Found sb t x 1) (word_addr sb (bn - ndirect) a t)) q
              (subst
                (λ (c : ℕ).
                  Ends (Found sb t (ndirect + (bn - ndirect)) 1) (word_addr sb (bn - ndirect) c t))
                e w))))
]

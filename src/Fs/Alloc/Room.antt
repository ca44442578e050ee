-- ===== src/Fs/Alloc/Room.antt =====
-- fs.c: how many blocks are free, and what `balloc` takes of them.
use operating_systems_assign.Base.{
  Bool-cases, arith, false, if◌then◌else◌, inl, inr, refl, suc, true, zero, ℕ, ◌<◌, ◌==◌, ◌≡◌, ◌∙◌,
}
use operating_systems_assign.Kernel.{Run, done, panics, sleeps}
use operating_systems_assign.Kernel.Ends.{Ends, ends}
use operating_systems_assign.Fs.{Disk, Super}
use operating_systems_assign.Fs.Alloc.{balloc}
use operating_systems_assign.Fs.Alloc.Sound.{Allocated, Outcome, Reserved, balloc-Outcome, in_use}

-- how many of the first `n` blocks are free
unfoldable pub free_below : Super → Disk → ℕ → ℕ
free_below sb d zero = 0
free_below sb d (suc n) = if in_use sb d n then free_below sb d n else suc (free_below sb d n)

-- how many blocks are free
abbrev pub free_blocks : Super → Disk → ℕ
free_blocks sb d = free_below sb d sb.size

pub free_below-eq :
    (sb : Super) (d e : Disk) (n : ℕ)
    → ((x : ℕ) → x < n → in_use sb e x ≡ in_use sb d x)
    → free_below sb e n ≡ free_below sb d n
unfolding free_below
free_below-eq sb d e zero h = refl
free_below-eq sb d e (suc n) h =
    let ih = free_below-eq sb d e n (λ x l. h x (omega arith)) in
    let q = h n (omega arith) in ground (arith, ih, q)

free_below-used :
    (sb : Super) (d e : Disk) (b n : ℕ)
    → b < n
    → in_use sb d b ≡ false
    → ((x : ℕ) → x < n → in_use sb e x ≡ (if x == b then true else in_use sb d x))
    → suc (free_below sb e n) ≡ free_below sb d n
unfolding free_below
free_below-used sb d e b zero l f h = absurd (omega arith)
free_below-used sb d e b (suc n) l f h =
    let q = h n (omega arith) in
    elim (Bool-cases (n == b)) [
      | inl at ↦
          let at' : n ≡ b = ground arith in
          let same =
            free_below-eq sb d e n (λ x m.
              let o : (x == b) ≡ false = ground arith in h x (omega arith) ∙ simp (o) refl) in
          let f' : in_use sb d n ≡ false = simp (at') f in ground (arith, same, q, f', at)
      | inr off ↦
          let ih = free_below-used sb d e b n (ground arith) f (λ x m. h x (omega arith)) in
          ground (arith, ih, q, off)
    ]

free_below-none :
    (sb : Super) (d : Disk) (n : ℕ)
    → ((x : ℕ) → x < n → in_use sb d x ≡ true)
    → free_below sb d n ≡ 0
unfolding free_below
free_below-none sb d zero h = refl
free_below-none sb d (suc n) h =
    let ih = free_below-none sb d n (λ x l. h x (omega arith)) in
    let q = h n (omega arith) in ground (arith, ih, q)

took :
    (sb : Super) (d : Disk) (r : Run Disk ℕ)
    → 0 < free_blocks sb d
    → Outcome sb d 0 r
    → Ends (λ b e. Allocated sb d e b × (suc (free_blocks sb e) ≡ free_blocks sb d)) r
took sb d (done b e) l o = ends (o, free_below-used sb d e b sb.size o.in_size o.was_free o.used)
took sb d sleeps l o = absurd o
took sb d panics l o =
    let z = free_below-none sb d sb.size (λ x m. o x (omega arith) m) in absurd (omega arith)

-- With a free block `balloc` returns one of them, and then one is free less.
pub balloc-Ends :
    (sb : Super) (d : Disk)
    → Reserved sb d
    → 0 < free_blocks sb d
    → Ends (λ b e. Allocated sb d e b × (suc (free_blocks sb e) ≡ free_blocks sb d)) (balloc sb d)
balloc-Ends sb d r l = took sb d (balloc sb d) l (balloc-Outcome sb d r)

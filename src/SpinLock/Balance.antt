-- ===== src/SpinLock/Balance.antt =====
-- spinlock.c: a lock taken and released leaves the CPU as it was.
use operating_systems_assign.Base.{
  false, true, ℕ, ◌≡◌, ◌≢◌, ◌⊎◌, arith, if◌then◌else◌, inr, refl, ◌&&◌, ◌+◌, ◌-◌, ◌==◌,
}
use operating_systems_assign.Kernel.{panics, done}
use operating_systems_assign.Kernel.Ends.{Ends, ends}
use operating_systems_assign.SpinLock.{
  Cpu, Locking, acquire, holds, initlock, popcli, pushcli, release,
}

-- Interrupts are off while a `pushcli` waits for its `popcli`.
abbrev pub IsCpu : Cpu → Type 0
IsCpu c = (c.ncli ≡ 0) ⊎ (c.interrupts ≡ false)

-- what interrupted code can see of a CPU: `intena` counts within a `pushcli` alone
abbrev pub Same : Cpu → Cpu → Type 0
Same c d = (c.interrupts ≡ d.interrupts) × (c.ncli ≡ d.ncli) × (c.ncli ≢ 0 → c.intena ≡ d.intena)

-- the CPU after a `pushcli` and its `popcli`: `intena` may have been set
undone : Cpu → Cpu
undone c = record c { intena = if c.ncli == 0 then c.interrupts else c.intena }

popcli-pushcli_eq : (c : Cpu) → IsCpu c → popcli (pushcli c) ≡ done tt (undone c)
unfolding popcli pushcli undone
popcli-pushcli_eq c h =
    let z1 : (c.ncli + 1 == 0) ≡ false = ground arith in
    let z2 : c.ncli + 1 - 1 ≡ c.ncli = omega arith in
    let i : ((c.ncli == 0) && (if c.ncli == 0 then c.interrupts else c.intena)) ≡ c.interrupts =
      ground arith in
    simp (z1, z2, i) refl

Same-undone : (c : Cpu) → Same (undone c) c
unfolding undone
Same-undone c = (refl, refl, λ n. ground arith)

off : (c : Cpu) → IsCpu (pushcli c)
unfolding pushcli
off c = inr refl

off_undone : (c : Cpu) → IsCpu (undone (pushcli c))
unfolding pushcli undone
off_undone c = inr refl

quiet : (c : Cpu) → (undone (pushcli c)).interrupts ≡ false
unfolding pushcli undone
quiet c = refl

-- the `popcli` of `release` for the `pushcli` of `acquire`
popcli-last : (c : Cpu) → IsCpu c → popcli (undone (undone (pushcli c))) ≡ done tt (undone c)
unfolding popcli pushcli undone
popcli-last c h =
    let z1 : (c.ncli + 1 == 0) ≡ false = ground arith in
    let z2 : c.ncli + 1 - 1 ≡ c.ncli = omega arith in
    let i : ((c.ncli == 0) && (if c.ncli == 0 then c.interrupts else c.intena)) ≡ c.interrupts =
      ground arith in
    simp (z1, z2, i) refl

-- `popcli` undoes `pushcli`: it does not panic, and interrupts, the count and, inside an outer
-- `pushcli`, what that one found are as before.
pub popcli-pushcli : (c : Cpu) → IsCpu c → Ends (λ _ d. Same d c × IsCpu d) (popcli (pushcli c))
unfolding undone
popcli-pushcli c h = simp (popcli-pushcli_eq c h) (ends (Same-undone c, h))

-- A free lock is taken at once by any CPU, and interrupts are off then. Its release panics nowhere and
-- gives back the free lock and the CPU as it was.
pub release-acquire :
    (me : ℕ) (s : Locking)
    → IsCpu s.here
    → s.lock ≡ initlock
    → Ends
        (λ _ t.
          (holds me t.lock ≡ true)
          × (t.here.interrupts ≡ false)
          × Ends (λ _ u. Same u.here s.here × (u.lock ≡ initlock)) (release me t))
        (acquire me s)
unfolding acquire release initlock holds
release-acquire me s h e =
    let twice = popcli-pushcli_eq (pushcli s.here) (off s.here) in
    let again = popcli-pushcli_eq (undone (pushcli s.here)) (off_undone s.here) in
    let self : (me == me) ≡ true = ground arith in
    simp (e, twice)
      (ends (
        self,
        quiet s.here,
        simp (again, self, popcli-last s.here h) (ends (Same-undone s.here, refl)),
      ))

-- A CPU that does not hold a lock panics when it releases it, and one that holds it when it acquires
-- it again.
pub release-panics :
    (me : ℕ) (s : Locking)
    → IsCpu s.here
    → (holds me s.lock ≡ false → release me s ≡ panics)
      × (holds me s.lock ≡ true → acquire me s ≡ panics)
unfolding acquire release
release-panics me s h =
    let once = popcli-pushcli_eq s.here h in
    let twice = popcli-pushcli_eq (pushcli s.here) (off s.here) in
    (λ e. simp (once, e) refl, λ e. simp (twice, e) refl)

-- ===== src/Pipe/Fifo.antt =====
-- pipe.c: the ring buffer is a queue of at most `pipesize` bytes. `contents` is the queue, and does
-- not show where in the ring the bytes lie.
use operating_systems_assign.Base.{
  List, [], arith, false, if◌then◌else◌, refl, suc, zero, ℕ, ◌%◌, ◌++◌, ◌+◌, ◌-◌, ◌<◌, ◌==◌, ◌∷◌,
  ◌≡◌, ◌≤◌, ap, true, ◌∙◌,
}
use operating_systems_assign.Pipe.{Pipe, pipesize, pop, push, uint}

-- the bytes of the ring from `start` on, among `k`
abbrev pub bytes_from : (ℕ → ℕ) → ℕ → ℕ → List ℕ
bytes_from ring start zero = []
bytes_from ring start (suc k) = ring (start % pipesize) ∷ bytes_from ring ((start + 1) % uint) k

abbrev pub count : Pipe → ℕ
count p = (p.nwrite + uint - p.nread) % uint

abbrev pub contents : Pipe → List ℕ
contents p = bytes_from p.ring p.nread (count p)

pub record IsPipe (p : Pipe) : Type 0 where
  pub read_small : p.nread < uint
  pub write_small : p.nwrite < uint
  pub fits : count p ≤ pipesize

-- what the two ends of the ring hold apart
bytes_from-other :
    (ring : ℕ → ℕ) (c w k start : ℕ)
    → start < uint
    → w < uint
    → k ≤ (w + uint - start) % uint
    → (w + uint - start) % uint < pipesize
    → bytes_from (λ i. if i == w % pipesize then c else ring i) start k ≡ bytes_from ring start k
bytes_from-other ring c w zero start s l a b = refl
bytes_from-other ring c w (suc k) start s l a b =
    let ih =
      bytes_from-other ring c w k ((start + 1) % uint) (omega arith) l (omega arith)
        (omega arith) in
    let here : (start % pipesize == w % pipesize) ≡ false = ground arith in simp (here, ih) refl

bytes_from-snoc :
    (ring : ℕ → ℕ) (k start : ℕ)
    → start < uint
    → bytes_from ring start (suc k)
      ≡ bytes_from ring start k ++ ring ((start + k) % uint % pipesize) ∷ []
bytes_from-snoc ring zero start s =
    let e : (start + 0) % uint ≡ start = omega arith in simp (e) refl
bytes_from-snoc ring (suc k) start s =
    let ih = bytes_from-snoc ring k ((start + 1) % uint) (omega arith) in
    let e : ((start + 1) % uint + k) % uint ≡ (start + suc k) % uint = omega arith in
    ap (λ l. ring (start % pipesize) ∷ l) (simp (e) at ih)

-- A byte written goes to the end of the queue.
pub push-contents :
    (c : ℕ) (p : Pipe)
    → IsPipe p
    → (p.nwrite == (p.nread + pipesize) % uint) ≡ false
    → IsPipe (push c p) × (contents (push c p) ≡ contents p ++ c ∷ [])
unfolding push
push-contents c p h e =
    let a = h.read_small in
    let b = h.write_small in
    let f = h.fits in
    let k = count p in
    let more : count (push c p) ≡ suc k = ground arith in
    let place : (p.nread + k) % uint ≡ p.nwrite = omega arith in
    let own : (p.nwrite % pipesize == p.nwrite % pipesize) ≡ true = ground arith in
    let new = push c p in
    (
      record { read_small = a; write_small = omega arith; fits = ground arith },
      ap (bytes_from new.ring p.nread) more
          ∙ bytes_from-snoc new.ring k p.nread a
          ∙ simp
              (
                place,
                own,
                bytes_from-other p.ring c p.nwrite k p.nread a b (omega arith) (ground arith),
              )
              refl,
    )

-- A byte read comes from the front of the queue.
pub pop-contents :
    (p : Pipe)
    → IsPipe p
    → (p.nread == p.nwrite) ≡ false
    → IsPipe (pop p) × (contents p ≡ p.ring (p.nread % pipesize) ∷ contents (pop p))
unfolding pop
pop-contents p h e =
    let a = h.read_small in
    let b = h.write_small in
    let f = h.fits in
    let less : count p ≡ suc (count (pop p)) = ground arith in
    (
      record { read_small = omega arith; write_small = b; fits = omega arith },
      ap (bytes_from p.ring p.nread) less,
    )

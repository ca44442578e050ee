-- ===== src/Pipe/Loops.antt =====
-- pipe.c: `pipewrite` and `piperead` as operations of the queue of `Pipe.Fifo`.
use operating_systems_assign.Base.{
  Bool, Bool-cases, List, [], ap, arith, false, inl, inr, length, min, not, refl, suc, sym, true,
  zero, ℕ, ◌%◌, ◌++◌, ◌+◌, ◌==◌, ◌||◌, ◌∙◌, ◌∷◌, ◌≡◌, append_nil, length-append, take, take-append,
  take_all, ◌&&◌, ◌≤◌, ◌<◌, if◌then◌else◌, ◌⊎◌,
}
use mathlib.Core.Path.{subst}
use operating_systems_assign.Pipe.{
  Pipe, Write, copy_out, fails, pipesize, pipewrite, pop, push, uint, waits, wrote, Read,
  fails_read, got, piperead, waits_read,
}
use operating_systems_assign.Pipe.Fifo.{
  IsPipe, contents, count, pop-contents, push-contents, bytes_from,
}

-- the part of `addr` before `left` is at the end of the queue
pub record Appended (p q : Pipe) (addr left : List ℕ) : Type 0 where
  pub written : List ℕ
  pub parts : written ++ left ≡ addr
  pub queue : contents q ≡ contents p ++ written
  pub is_pipe : IsPipe q

-- what a call of `pipewrite` may come to
abbrev pub Writes : Bool → Pipe → List ℕ → Write → Type 0
Writes killed p addr (wrote q) = Appended p q addr []
Writes killed p addr (fails q) =
    (left : List ℕ) × Appended p q addr left
    × (count q ≡ pipesize)
    × ((not p.readopen || killed) ≡ true)
Writes killed p addr (waits left q) =
    Appended p q addr left × (count q ≡ pipesize) × ((not p.readopen || killed) ≡ false)

append_one : (xs : List ℕ) (c : ℕ) (ys : List ℕ) → (xs ++ c ∷ []) ++ ys ≡ xs ++ c ∷ ys
append_one [] c ys = refl
append_one (x ∷ xs) c ys = ap (λ l. x ∷ l) (append_one xs c ys)

Appended-push :
    (c : ℕ) (p q : Pipe) (addr left : List ℕ)
    → contents (push c p) ≡ contents p ++ c ∷ []
    → Appended (push c p) q addr left
    → Appended p q (c ∷ addr) left
Appended-push c p q addr left e a = record {
  written = c ∷ a.written;
  parts = ap (λ l. c ∷ l) a.parts;
  queue = a.queue ∙ ap (λ l. l ++ a.written) e ∙ append_one (contents p) c a.written;
  is_pipe = a.is_pipe;
}

Appended-nil : (p : Pipe) (addr : List ℕ) → IsPipe p → Appended p p addr addr
Appended-nil p addr h = record {
  written = [];
  parts = refl;
  queue = sym (append_nil (contents p));
  is_pipe = h;
}

Writes-push :
    (killed : Bool) (c : ℕ) (p : Pipe) (addr : List ℕ) (r : Write)
    → contents (push c p) ≡ contents p ++ c ∷ []
    → Writes killed (push c p) addr r
    → Writes killed p (c ∷ addr) r
unfolding push
Writes-push killed c p addr (wrote q) e w = Appended-push c p q addr [] e w
Writes-push killed c p addr (fails q) e (left, a, f, k) =
    (left, Appended-push c p q addr left e a, f, k)
Writes-push killed c p addr (waits left q) e (a, f, k) = (Appended-push c p q addr left e a, f, k)

-- `pipewrite` returns when all of its bytes are at the end of the queue, in their order. It sleeps,
-- or gives up when nobody reads or the process is killed, only at a full queue, and the bytes put
-- there until then are the first of the call.
pub pipewrite-Writes :
    (killed : Bool) (addr : List ℕ) (p : Pipe)
    → IsPipe p
    → Writes killed p addr (pipewrite killed addr p)
unfolding pipewrite
pipewrite-Writes killed [] p h = Appended-nil p [] h
pipewrite-Writes killed (c ∷ addr) p h =
    let a = h.read_small in
    let b = h.write_small in
    let f = h.fits in
    elim (Bool-cases (p.nwrite == (p.nread + pipesize) % uint)) [
      | inl full ↦
          (let n : count p ≡ pipesize = ground arith in
            elim (Bool-cases (not p.readopen || killed)) [
              | inl k ↦ simp (full, k) (c ∷ addr, Appended-nil p (c ∷ addr) h, n, refl)
              | inr k ↦ simp (full, k) (Appended-nil p (c ∷ addr) h, n, refl)
            ])
      | inr e ↦
          (let (good, queue) = push-contents c p h e in
            simp (e)
              (Writes-push killed c p addr _ queue (pipewrite-Writes killed addr (push c p) good)))
    ]

-- `copy_out` takes bytes from the front of the queue, `n` of them or all.
pub copy_out-contents :
    (n : ℕ) (p : Pipe)
    → IsPipe p
    → ((copy_out n p).0 ++ contents (copy_out n p).1 ≡ contents p)
      × (length (copy_out n p).0 ≡ min n (count p))
      × IsPipe (copy_out n p).1
unfolding copy_out pop
copy_out-contents zero p h = (refl, omega arith, h)
copy_out-contents (suc n) p h =
    let a = h.read_small in
    let b = h.write_small in
    let f = h.fits in
    elim (Bool-cases (p.nread == p.nwrite)) [
      | inl e ↦ (let empty : count p ≡ 0 = ground arith in simp (e) (refl, omega arith, h))
      | inr e ↦
          (let (good, queue) = pop-contents p h e in
            let (u, v, w) = copy_out-contents n (pop p) good in
            let less : count p ≡ suc (count (pop p)) = ground arith in
            simp (e) (ap (λ l. p.ring (p.nread % pipesize) ∷ l) u ∙ sym queue, omega arith, w))
    ]

-- what a call of `piperead` may come to
abbrev pub Reads : Bool → ℕ → Pipe → Read → Type 0
Reads killed n p (got bytes q) =
    (bytes ++ contents q ≡ contents p)
    × (length bytes ≡ min n (count p))
    × IsPipe q
    × (0 < count p ⊎ (p.writeopen ≡ false))
Reads killed n p (fails_read q) = (q ≡ p) × (count p ≡ 0) × (killed ≡ true)
Reads killed n p (waits_read q) = (q ≡ p) × (count p ≡ 0) × (killed ≡ false) × (p.writeopen ≡ true)

busy_or_closed :
    (p : Pipe) → (count p == 0 && p.writeopen) ≡ false → 0 < count p ⊎ (p.writeopen ≡ false)
busy_or_closed p h = elim (Bool-cases (count p == 0)) [
  | inl z ↦ inr (ground arith)
  | inr z ↦ inl (ground arith)
]

-- `piperead` takes from the front of the queue as many bytes as it is asked for or as there are; it
-- gives none of an empty queue while the pipe is open for writing. It sleeps, or gives up when the
-- process is killed, only at an empty queue, and leaves the pipe as it is.
pub piperead-Reads :
    (killed : Bool) (n : ℕ) (p : Pipe) → IsPipe p → Reads killed n p (piperead killed n p)
unfolding piperead
piperead-Reads killed n p h =
    let a = h.read_small in
    let b = h.write_small in
    let f = h.fits in
    elim (Bool-cases (p.nread == p.nwrite && p.writeopen)) [
      | inl e ↦
          (let empty : count p ≡ 0 = ground arith in
            let open_end : p.writeopen ≡ true = ground arith in
            elim (Bool-cases killed) [
              | inl k ↦ simp (e, k) (refl, empty, refl)
              | inr k ↦ simp (e, k) (refl, empty, refl, open_end)
            ])
      | inr e ↦
          let (u, v, w) = copy_out-contents n p h in
          simp (e) (u, v, w, busy_or_closed p (ground arith))
    ]

length-bytes_from : (ring : ℕ → ℕ) (k start : ℕ) → length (bytes_from ring start k) ≡ k
length-bytes_from ring zero start = refl
length-bytes_from ring (suc k) start = ap suc (length-bytes_from ring k ((start + 1) % uint))

if_no : (b : Bool) (x y : Write) → b ≡ false → (if b then x else y) ≡ y
if_no b x y e = ap (λ t. if t then x else y) e

-- A write that fits is done at once.
pipewrite-fits :
    (killed : Bool) (addr : List ℕ) (p : Pipe)
    → IsPipe p
    → count p + length addr ≤ pipesize
    → (q : Pipe) × (pipewrite killed addr p ≡ wrote q)
unfolding pipewrite
pipewrite-fits killed [] p h l = (p, refl)
pipewrite-fits killed (c ∷ addr) p h l =
    let a = h.read_small in
    let b = h.write_small in
    let e : (p.nwrite == (p.nread + pipesize) % uint) ≡ false = ground arith in
    let (good, _) = push-contents c p h e in
    let (q, done_so) = pipewrite-fits killed addr (push c p) good (ground arith) in
    (q, if_no _ _ _ e ∙ done_so)

-- A reader at a queue that is not empty does not wait.
piperead-busy :
    (killed : Bool) (n : ℕ) (q : Pipe)
    → IsPipe q
    → 0 < count q
    → piperead killed n q ≡ got (copy_out n q).0 (copy_out n q).1
unfolding piperead
piperead-busy killed n q h l =
    let e : (q.nread == q.nwrite && q.writeopen) ≡ false = ground arith in simp (e) refl

-- Bytes go through the pipe in their order: one byte or more, `pipesize` at most, that are written to
-- an empty pipe are all accepted; a `piperead` of as many gives them without a wait, and leaves the
-- pipe empty.
pub piperead-pipewrite :
    (killed killed' : Bool) (addr : List ℕ) (p : Pipe)
    → IsPipe p
    → count p ≡ 0
    → 0 < length addr
    → length addr ≤ pipesize
    → (q : Pipe) × (r : Pipe) × (pipewrite killed addr p ≡ wrote q)
      × (piperead killed' (length addr) q ≡ got addr r)
      × (count r ≡ 0)
piperead-pipewrite killed killed' addr p h empty some_ l =
    let (q, w) = pipewrite-fits killed addr p h (omega arith) in
    let a : Appended p q addr [] =
      subst (Writes killed p addr) w (pipewrite-Writes killed addr p h) in
    let n = length addr in
    let r = copy_out n q in
    let (u, v, _) = copy_out-contents n q a.is_pipe in
    let queue : contents q ≡ addr =
      a.queue
      ∙ ap (λ k. bytes_from p.ring p.nread k ++ a.written) empty
      ∙ sym (append_nil a.written)
      ∙ a.parts in
    let all : r.0 ++ contents r.1 ≡ addr = u ∙ queue in
    let size = ap length queue in
    let size_q = length-bytes_from q.ring (count q) q.nread in
    let size_r = length-bytes_from r.1.ring (count r.1) r.1.nread in
    let sum = length-append r.0 (contents r.1) in
    let sum_all = ap length all in
    let same : length r.0 ≡ n = omega arith in
    let back : r.0 ≡ addr =
      sym (take-append r.0 (contents r.1) n same) ∙ ap (take n) all ∙ take_all addr n refl in
    (
      q,
      r.1,
      w,
      piperead-busy killed' n q a.is_pipe (omega arith) ∙ ap (λ b. got b r.1) back,
      omega arith,
    )

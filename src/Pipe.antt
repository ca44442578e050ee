-- ===== src/Pipe.antt =====
-- pipe.c: the ring buffer of a pipe. `nread` and `nwrite` are unsigned, and run modulo 2^32. The
-- pipe's lock makes one step of each stretch between two sleeps.
pub mod Fifo
pub mod Loops
use operating_systems_assign.Base.{
  Bool, List, [], false, if◌then◌else◌, not, suc, true, zero, ℕ, ◌%◌, ◌&&◌, ◌+◌, ◌==◌, ◌||◌, ◌∷◌,
}

abbrev pub pipesize : ℕ
pipesize = 512

abbrev pub uint : ℕ
uint = 4294967296

-- struct pipe without its lock
pub record Pipe : Type 0 where
  pub ring : ℕ → ℕ
  pub nread : ℕ
  pub nwrite : ℕ
  pub readopen : Bool
  pub writeopen : Bool

-- the pipe as `pipealloc` sets it up in the page that it gets
unfoldable pub pipealloc : (ℕ → ℕ) → Pipe
pipealloc page = record { ring = page; nread = 0; nwrite = 0; readopen = true; writeopen = true }

-- `pipeclose`, with whether the pipe is freed
unfoldable pub pipeclose : Bool → Pipe → Bool × Pipe
pipeclose writable p =
    let q = if writable then record p { writeopen = false } else record p { readopen = false } in
    (not q.readopen && not q.writeopen, q)

-- `p->data[p->nwrite++ % PIPESIZE] = c`
unfoldable pub push : ℕ → Pipe → Pipe
push c p = record p {
  ring = λ i. if i == p.nwrite % pipesize then c else p.ring i;
  nwrite = (p.nwrite + 1) % uint;
}

-- `p->data[p->nread++ % PIPESIZE]`
unfoldable pub pop : Pipe → Pipe
pop p = record p { nread = (p.nread + 1) % uint }

-- how a call of `pipewrite` goes on: it returns `n`, it returns -1, or it sleeps, with bytes left
pub data Write : Type 0 where
  wrote : Pipe → Write
  fails : Pipe → Write
  waits : List ℕ → Pipe → Write

-- the loop of `pipewrite`, for the bytes left; a writer that wakes up runs it again
unfoldable pub pipewrite : Bool → List ℕ → Pipe → Write
unfolding push
pipewrite killed [] p = wrote p
pipewrite killed (c ∷ rest) p =
    let next = pipewrite killed rest (push c p) in
    if p.nwrite == (p.nread + pipesize) % uint
    then (if not p.readopen || killed then fails p else waits (c ∷ rest) p)
    else next

-- how a call of `piperead` goes on
pub data Read : Type 0 where
  got : List ℕ → Pipe → Read
  fails_read : Pipe → Read
  waits_read : Pipe → Read

-- the loop of `piperead` that copies, for `n` rounds
unfoldable pub copy_out : ℕ → Pipe → List ℕ × Pipe
unfolding pop
copy_out zero p = ([], p)
copy_out (suc n) p =
    let rest = copy_out n (pop p) in
    if p.nread == p.nwrite then ([], p) else (p.ring (p.nread % pipesize) ∷ rest.0, rest.1)

unfoldable pub piperead : Bool → ℕ → Pipe → Read
unfolding copy_out
piperead killed n p =
    if p.nread == p.nwrite && p.writeopen
    then (if killed then fails_read p else waits_read p)
    else got (copy_out n p).0 (copy_out n p).1

-- ===== src/Proc/Ops.antt =====
-- proc.c: `allocproc`, `fork`, `growproc`, `wakeup`, `sleep`, `kill`, `yield` and one choice of the
-- scheduler. A section that holds ptable.lock is atomic; `sched` ends the caller's step.
use operating_systems_assign.CString.{array, safestrcpy, view}
use operating_systems_assign.Base.{
  Bool, List, Option, [], drop, false, get_or, if◌then◌else◌, ltb, none, not, some, suc, true, zero,
  ℕ, ◌%◌, ◌&&◌, ◌+◌, ◌-◌, ◌==◌, ◌^◌, ◌∷◌,
}
use operating_systems_assign.Base.Int.{negsuc, pos, ℤ}
use operating_systems_assign.Kernel.{Cmd, done, get, modify, pure, ◌>>=◌, ◌>>◌}
use operating_systems_assign.Proc.{
  Chan, Proc, ProcOps, ProcState, Procs, change, find_from, is_runnable, is_sleeping, is_unused,
  kstacksize, nproc, on_ext, same_chan,
}

-- sizeof(struct trapframe) and sizeof(struct context)
abbrev pub trapframe_size : ℕ
trapframe_size = 76

abbrev pub context_size : ℕ
context_size = 20

-- an `int`, from its 32 bits
abbrev pub int : ℕ → ℤ
int w = if ltb w 2147483648 then pos w else negsuc (4294967295 - w)

-- what `wakeup1(chan)` makes of one process
abbrev pub woken : Chan → Proc → Proc
woken c p =
    if is_sleeping p.state && same_chan p.chan c then record p { state = ProcState.runnable } else p

-- The loop changes each entry by itself.
unfoldable pub wakeup1 : Chan → (ℕ → Proc) → ℕ → Proc
wakeup1 c f i = if ltb i nproc then woken c (f i) else f i

module _ {E : Type 0} where
  unfoldable pub wakeup : Chan → Cmd (Procs E) (Unit {0})
  unfolding wakeup1
  wakeup c s = done tt (record s { proc = wakeup1 c s.proc })

  -- the section that kill(pid) runs on the process it found
  abbrev pub kill_found : Option ℕ → Cmd (Procs E) ℤ
  kill_found none = pure (negsuc 0)
  kill_found (some i) = do
    change i (λ p. record p {
      killed = true;
      state = if is_sleeping p.state then ProcState.runnable else p.state;
    })
    pure (pos 0)

  unfoldable pub kill : ℕ → Cmd (Procs E) ℤ
  kill pid s = kill_found (find_from (λ p. p.pid == pid) s.proc 0 nproc) s

  -- sleep(chan, lk), up to the switch to the scheduler
  unfoldable pub sleep : ℕ → Chan → Cmd (Procs E) (Unit {0})
  sleep cur c = change cur (λ p. record p { chan = c; state = ProcState.sleeping })

  -- the rest of `sleep`, when the process runs again
  unfoldable pub sleep_end : ℕ → Cmd (Procs E) (Unit {0})
  sleep_end cur = change cur (λ p. record p { chan = Chan.nowhere })

  unfoldable pub yield : ℕ → Cmd (Procs E) (Unit {0})
  yield cur = change cur (λ p. record p { state = ProcState.runnable })

  -- change_user(uid)
  unfoldable pub change_user : ℕ → ℕ → Cmd (Procs E) (Unit {0})
  change_user cur uid = change cur (λ p. record p { uid = uid })

module _ {E : Type 0} (ops : ProcOps E) where
  open ops use {
    kalloc, kfree, copyuvm, allocuvm, deallocuvm, switchuvm, freevm, filedup, idup, forkret,
    trapret,
  }

  -- The scheduler runs the process `i`, if it may.
  unfoldable pub dispatch : ℕ → Cmd (Procs E) Bool
  dispatch i s =
      if is_runnable (s.proc i).state
      then (do
        on_ext (switchuvm (s.proc i).pgdir)
        change i (λ p. record p { state = ProcState.running })
        pure true)
          s
      else done false s

  -- the kernel stack of the process `i`, once it is allocated
  abbrev pub set_stack : ℕ → Proc → Proc
  set_stack kstack p = record p {
    kstack = kstack;
    tf = kstack + kstacksize - trapframe_size;
    return_to = trapret;
    context = kstack + kstacksize - trapframe_size - 4 - context_size;
    context_eip = forkret;
  }

  -- what `allocproc` does to the free entry `i` under ptable.lock; `nextpid` and the pids are an
  -- `int`, given as its 32 bits
  abbrev pub take_entry : ℕ → Cmd (Procs E) (Unit {0})
  take_entry i = do
    s ← get
    change i (λ p. record p { state = ProcState.embryo; pid = s.nextpid })
    modify (λ t. record t { nextpid = (t.nextpid + 1) % 4294967296 })

  -- the rest of `allocproc`, without the lock
  abbrev pub alloc_stack : ℕ → Cmd (Procs E) (Option ℕ)
  alloc_stack i = do
    kstack ← on_ext kalloc
    change i (λ p. record p { kstack = kstack })
    if kstack == 0
        then (do change i (λ p. record p { state = ProcState.unused }); pure none)
        else do change i (set_stack kstack); pure (some i)

  abbrev pub alloc_found : Option ℕ → Cmd (Procs E) (Option ℕ)
  alloc_found none = pure none
  alloc_found (some i) = do take_entry i; alloc_stack i

  unfoldable pub allocproc : Cmd (Procs E) (Option ℕ)
  allocproc s = alloc_found (find_from (λ p. is_unused p.state) s.proc 0 nproc) s

  -- np->ofile[i] = filedup(curproc->ofile[i]) for the open files; the child's own entries are left
  -- where the parent has none
  unfoldable pub dup_files : List ℕ → List ℕ → Cmd (Procs E) (List ℕ)
  dup_files [] own = pure []
  dup_files (f ∷ fs) own = do
    g ← (if f == 0 then pure (get_or own 0 0) else on_ext (filedup f))
    gs ← dup_files fs (drop 1 own)
    pure (g ∷ gs)

  -- np->cwd = …; safestrcpy(np->name, curproc->name, 16);
  abbrev pub set_cwd : ℕ → List ℕ → Proc → Proc
  set_cwd cwd name p = record p {
    cwd = cwd;
    name = array 16 (safestrcpy (view p.name) (view name) 16);
  }

  -- `fork` from the page table on, for the child `np`, up to its last section; it gives whether
  -- there is a page table
  unfoldable pub fork_fill : ℕ → ℕ → Cmd (Procs E) Bool
  fork_fill cur np = do
    s ← get
    pgdir ← on_ext (copyuvm (s.proc cur).pgdir (s.proc cur).sz)
    change np (λ p. record p { pgdir = pgdir })
    if pgdir == 0
        then (do
          on_ext (kfree (s.proc np).kstack)
          change np (λ p. record p { kstack = 0; state = ProcState.unused })
          pure false)
        else do
          change np (λ p. record p {
            uid = (s.proc cur).uid;
            sz = (s.proc cur).sz;
            parent = some cur;
            frame = record { eax = 0; others = (s.proc cur).frame.others };
          })
          files ← dup_files (s.proc cur).ofile (s.proc np).ofile
          change np (λ p. record p { ofile = files })
          cwd ← on_ext (idup (s.proc cur).cwd)
          change np (set_cwd cwd (s.proc cur).name)
          pure true

  -- the last section of `fork`, under ptable.lock, and the result
  unfoldable pub fork_settle : ℕ → Cmd (Procs E) ℤ
  fork_settle np = do
    s ← get
    change np (λ p. record p { state = ProcState.runnable })
    pure (int (s.proc np).pid)

  unfoldable pub fork_child : ℕ → ℕ → Cmd (Procs E) ℤ
  unfolding fork_fill fork_settle
  fork_child cur np = do
    filled ← fork_fill cur np
    if filled then fork_settle np else pure (negsuc 0)

  abbrev pub fork_alloc : ℕ → Option ℕ → Cmd (Procs E) ℤ
  fork_alloc cur none = pure (negsuc 0)
  fork_alloc cur (some np) = fork_child cur np

  unfoldable pub fork : ℕ → Cmd (Procs E) ℤ
  unfolding allocproc fork_child
  fork cur = do np ← allocproc; fork_alloc cur np

  -- sz + n, for an `int` n
  abbrev grown : ℕ → ℤ → ℕ
  grown sz (pos n) = (sz + n) % 2 ^ 32
  grown sz (negsuc n) = (sz + 2 ^ 32 - suc n) % 2 ^ 32

  -- the page table changed for `n`; 0 is a failure, except where n == 0
  abbrev resize : ℤ → ℕ → ℕ → Cmd E ℕ
  resize (pos zero) pgdir sz = pure sz
  resize (pos (suc n)) pgdir sz = allocuvm pgdir sz (grown sz (pos (suc n)))
  resize (negsuc n) pgdir sz = deallocuvm pgdir sz (grown sz (negsuc n))

  abbrev is_zero_int : ℤ → Bool
  is_zero_int (pos n) = n == 0
  is_zero_int (negsuc n) = false

  unfoldable pub growproc : ℕ → ℤ → Cmd (Procs E) ℤ
  growproc cur n = do
    s ← get
    sz ← on_ext (resize n (s.proc cur).pgdir (s.proc cur).sz)
    if not (is_zero_int n) && sz == 0 then pure (negsuc 0) else do
      change cur (λ p. record p { sz = sz })
      on_ext (switchuvm (s.proc cur).pgdir)
      pure (pos 0)

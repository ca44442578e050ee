-- ===== src/Proc.antt =====
-- proc.c and proc.h: the process table. `ptable.proc` is a function of the index, a process is named
-- by its index, and a loop over the table stops at `nproc`. What a process holds elsewhere (kernel
-- stack, page table, files, directory) is kept as a handle, 0 for none, and changed through
-- `ProcOps`, whose routines work on the state `E` of kalloc.c, vm.c, file.c, fs.c and log.c.
pub mod Ops
pub mod Exit
pub mod Scan
pub mod Zombie
pub mod Inv
pub mod Steps
pub mod Create
pub mod Reap
pub mod Reach
pub mod Kill
use operating_systems_assign.Base.{
  Bool, List, Option, false, if◌then◌else◌, none, some, suc, true, zero, ℕ, ◌==◌,
}
use operating_systems_assign.Kernel.{Cmd, Run, done, panics, sleeps}

abbrev pub nproc : ℕ
nproc = 64

abbrev pub kstacksize : ℕ
kstacksize = 4096

-- enum procstate
pub data ProcState : Type 0 where
  unused embryo sleeping runnable running zombie : ProcState

-- what a process sleeps on: nothing, the `struct proc` at an index, or another kernel address
pub data Chan : Type 0 where
  nowhere : Chan
  on_proc : ℕ → Chan
  on_addr : ℕ → Chan

-- The trap frame's contents: `eax`, and the other registers, which are only copied.
pub record TrapFrame : Type 0 where
  pub eax : ℕ
  pub others : List ℕ

pub record Proc : Type 0 where
  pub sz : ℕ
  pub pgdir : ℕ
  pub kstack : ℕ
  pub state : ProcState
  pub pid : ℕ
  pub parent : Option ℕ
  -- the address of the trap frame, and what it holds
  pub tf : ℕ
  pub frame : TrapFrame
  -- the address of the saved context, its `eip`, and the return address above it
  pub context : ℕ
  pub context_eip : ℕ
  pub return_to : ℕ
  pub chan : Chan
  pub killed : Bool
  pub ofile : List ℕ
  pub cwd : ℕ
  pub name : List ℕ
  pub uid : ℕ

pub record ProcOps (E : Type 0) : Type 0 where
  pub kalloc : Cmd E ℕ
  pub kfree : ℕ → Cmd E (Unit {0})
  pub copyuvm : ℕ → ℕ → Cmd E ℕ
  pub allocuvm : ℕ → ℕ → ℕ → Cmd E ℕ
  pub deallocuvm : ℕ → ℕ → ℕ → Cmd E ℕ
  pub switchuvm : ℕ → Cmd E (Unit {0})
  pub freevm : ℕ → Cmd E (Unit {0})
  pub filedup : ℕ → Cmd E ℕ
  pub fileclose : ℕ → Cmd E (Unit {0})
  pub idup : ℕ → Cmd E ℕ
  pub iput : ℕ → Cmd E (Unit {0})
  pub begin_op : Cmd E (Unit {0})
  pub end_op : Cmd E (Unit {0})
  -- the addresses of `forkret` and `trapret`
  pub forkret : ℕ
  pub trapret : ℕ

pub record Procs (E : Type 0) : Type 0 where
  pub proc : ℕ → Proc
  pub nextpid : ℕ
  pub initproc : ℕ
  pub ext : E

abbrev pub is_unused : ProcState → Bool
is_unused ProcState.unused = true
is_unused _ = false

abbrev pub is_zombie : ProcState → Bool
is_zombie ProcState.zombie = true
is_zombie _ = false

abbrev pub is_sleeping : ProcState → Bool
is_sleeping ProcState.sleeping = true
is_sleeping _ = false

abbrev pub is_runnable : ProcState → Bool
is_runnable ProcState.runnable = true
is_runnable _ = false

abbrev pub same_chan : Chan → Chan → Bool
same_chan (Chan.on_proc i) (Chan.on_proc j) = i == j
same_chan (Chan.on_addr a) (Chan.on_addr b) = a == b
same_chan Chan.nowhere Chan.nowhere = true
same_chan _ _ = false

-- p->parent == the process `i`
abbrev pub parent_is : Option ℕ → ℕ → Bool
parent_is none i = false
parent_is (some j) i = j == i

-- the table with the entry `i` changed
abbrev pub update : (ℕ → Proc) → ℕ → Proc → ℕ → Proc
update f i p j = if i == j then p else f j

module _ {E A : Type 0} where
  abbrev pub with_ext : Procs E → Run E A → Run (Procs E) A
  with_ext s (done a e) = done a (record s { ext = e })
  with_ext s sleeps = sleeps
  with_ext s panics = panics

  abbrev pub on_ext : Cmd E A → Cmd (Procs E) A
  on_ext m s = with_ext s (m s.ext)

module _ {E : Type 0} where
  -- p->… = …, for the process `i`
  abbrev pub change : ℕ → (Proc → Proc) → Cmd (Procs E) (Unit {0})
  change i g s = done tt (record s { proc = update s.proc i (g (s.proc i)) })

-- The first index from `i` on, among `n`, whose process passes the test.
unfoldable pub find_from : (Proc → Bool) → (ℕ → Proc) → ℕ → ℕ → Option ℕ
find_from test f i zero = none
find_from test f i (suc n) =
    let later = find_from test f (suc i) n in if test (f i) then some i else later

-- ===== src/FileTable.antt =====
-- file.c: the table of open files and their reference counts. The lock of the table makes each
-- routine one step.
pub mod Count
use operating_systems_assign.Base.{
  Bool, Option, if◌then◌else◌, ltb, none, some, suc, zero, ℕ, ◌+◌, ◌-◌, ◌==◌, List, [], set, ◌∷◌,
}
use operating_systems_assign.Kernel.{Cmd, done, panics}

abbrev pub nfile : ℕ
nfile = 100

pub data FileType : Type 0 where
  fd_none : FileType
  fd_pipe : FileType
  fd_inode : FileType

-- struct file; `pipe` and `ip` are addresses
pub record File : Type 0 where
  pub type : FileType
  pub ref : ℕ
  pub readable : Bool
  pub writable : Bool
  pub pipe : ℕ
  pub ip : ℕ
  pub off : ℕ

abbrev pub Files : Type 0
Files = ℕ → File

abbrev pub put : Files → ℕ → File → Files
put t f v x = if x == f then v else t x

-- the loop of `filealloc` from `f` on, among `m` files
unfoldable pub free_file : Files → ℕ → ℕ → Option ℕ
free_file t f zero = none
free_file t f (suc m) = let rest = free_file t (suc f) m in if (t f).ref == 0 then some f else rest

abbrev pub take_file : Files → Option ℕ → Option (ℕ × Files)
take_file t none = none
take_file t (some f) = some (f, put t f (record (t f) { ref = 1 }))

unfoldable pub filealloc : Files → Option (ℕ × Files)
unfolding free_file
filealloc t = take_file t (free_file t 0 nfile)

unfoldable pub filedup : ℕ → Cmd Files (Unit {0})
filedup f t =
    if (t f).ref == 0 then panics else done tt (put t f (record (t f) { ref = (t f).ref + 1 }))

-- what is left to do for the last reference: `pipeclose`, or `iput` in a transaction
pub data Release : Type 0 where
  nothing : Release
  pipeclose : ℕ → Bool → Release
  iput : ℕ → Release

abbrev pub release_of : FileType → File → Release
release_of fd_none ff = nothing
release_of fd_pipe ff = pipeclose ff.pipe ff.writable
release_of fd_inode ff = iput ff.ip

unfoldable pub fileclose : ℕ → Cmd Files Release
fileclose f t =
    if (t f).ref == 0
    then panics
    else if ltb 0 ((t f).ref - 1)
    then done nothing (put t f (record (t f) { ref = (t f).ref - 1 }))
    else done (release_of (t f).type (t f)) (put t f (record (t f) { type = fd_none; ref = 0 }))

abbrev pub take_fd : List ℕ → ℕ → Option ℕ → Option (ℕ × List ℕ)
take_fd ofile f none = none
take_fd ofile f (some fd) = some (fd, set ofile fd f)

-- the loop of `fdalloc` over the descriptors from `fd` on, where 0 is a free one
unfoldable pub free_fd : List ℕ → ℕ → Option ℕ
free_fd [] fd = none
free_fd (x ∷ ofile) fd = let later = free_fd ofile (suc fd) in if x == 0 then some fd else later

-- `fdalloc` of sysfile.c
unfoldable pub fdalloc : List ℕ → ℕ → Option (ℕ × List ℕ)
unfolding free_fd
fdalloc ofile f = take_fd ofile f (free_fd ofile 0)

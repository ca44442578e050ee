-- ===== src/Tests/Strings.antt =====
-- string.c, pipe.c, syscall.c, spinlock.c, kalloc.c, file.c and grep.c at concrete inputs.

use operating_systems_assign.Kernel.{done}
use operating_systems_assign.Base.{
  [], arith, false, if◌then◌else◌, inl, refl, some, true, ℕ, ◌+◌, ◌<◌, ◌==◌, ◌↔◌, ◌∷◌, ◌≡◌, ◌≢◌,
  ◌≤◌, Bool, List,
}
use operating_systems_assign.Base.Int.{pos}
use operating_systems_assign.Kernel.Ends.{Ends}
use operating_systems_assign.FileTable.{
  Files, fd_none, filealloc, fileclose, free_file, nothing, put,
}
use operating_systems_assign.FileTable.Count.{Reach, add, allocates, fileclose-last, starts, steps}
use operating_systems_assign.CString.{Bytes, memmove, safestrcpy, strncmp, strncpy, view}
use operating_systems_assign.CString.Memory.{memmove-moved}
use operating_systems_assign.CString.Compare.{SameString, strncmp-SameString}
use operating_systems_assign.CString.Copy.{SafeCopy, safestrcpy-SafeCopy, strncpy-padded}
use operating_systems_assign.Pipe.{Pipe, piperead, pipewrite, wrote, got}
use operating_systems_assign.Pipe.Fifo.{IsPipe, count}
use operating_systems_assign.Pipe.Loops.{
  Reads, Writes, piperead-Reads, piperead-pipewrite, pipewrite-Writes,
}
use operating_systems_assign.SysArg.{User, argint, argptr, fetchint, fetchstr}
use operating_systems_assign.SysArg.Bounds.{IsString, argptr-inside, fetchstr-IsString, Result}
use operating_systems_assign.SpinLock.{Cpu, acquire, holds, initlock, release}
use operating_systems_assign.SpinLock.Balance.{Same, release-acquire}
use operating_systems_assign.Kalloc.{Kmem, kalloc, kfree}
use operating_systems_assign.Kalloc.Chain.{Free, Given, kalloc-Free, kfree-Free}

abbrev numbers : Bytes
numbers = λ i. i + 1

-- the regions 3..7 and 1..5 overlap
memmove-moved_example : memmove numbers 3 1 5 6 ≡ 5
memmove-moved_example = memmove-moved numbers 3 1 5 6

abbrev ab : Bytes
ab = view (97 ∷ 98 ∷ 0 ∷ [])

strncmp-SameString_example : (strncmp ab ab 16 ≡ pos 0) ↔ SameString ab ab 16
strncmp-SameString_example = strncmp-SameString ab ab 16

strncpy-padded_example : strncpy numbers ab 4 3 ≡ 0
strncpy-padded_example = strncpy-padded numbers ab 4 3

safestrcpy-SafeCopy_example : SafeCopy numbers ab (safestrcpy numbers ab 2) 1
safestrcpy-SafeCopy_example = safestrcpy-SafeCopy numbers ab 1

-- a pipe about to wrap around in its counters, with nothing to read
abbrev old_pipe : Pipe
old_pipe = record {
  ring = λ i. 0;
  nread = 4294967295;
  nwrite = 4294967295;
  readopen = true;
  writeopen = true;
}

old_pipe-IsPipe : IsPipe old_pipe
old_pipe-IsPipe = record { read_small = omega arith; write_small = omega arith; fits = omega arith }

pipewrite-Writes_example :
    Writes false old_pipe (1 ∷ 2 ∷ []) (pipewrite false (1 ∷ 2 ∷ []) old_pipe)
pipewrite-Writes_example = pipewrite-Writes false (1 ∷ 2 ∷ []) old_pipe old_pipe-IsPipe

piperead-Reads_example : Reads false 3 old_pipe (piperead false 3 old_pipe)
piperead-Reads_example = piperead-Reads false 3 old_pipe old_pipe-IsPipe

piperead-pipewrite_example :
    (q : Pipe) × (r : Pipe) × (pipewrite false (1 ∷ 2 ∷ []) old_pipe ≡ wrote q)
    × (piperead false 2 q ≡ got (1 ∷ 2 ∷ []) r)
    × (count r ≡ 0)
piperead-pipewrite_example =
    piperead-pipewrite false false (1 ∷ 2 ∷ []) old_pipe old_pipe-IsPipe (omega arith) (omega arith)
      (omega arith)

abbrev user : User
user = record {
  sz = 8192;
  esp = 4000;
  int_at = λ a. if a == 4008 then 100 else 0;
  byte_at = numbers;
}

argint-user : argint user 1 ≡ some 100
unfolding argint fetchint
argint-user = refl

argptr-inside_example : argptr user 1 8000 ≡ some 100
argptr-inside_example = argptr-inside user 1 8000 100 (omega arith) argint-user

fetchstr-IsString_example :
    Result
      (λ r. (r.0 ≡ 100) × IsString user r)
      ((j : ℕ) → 100 ≤ j → j < 8192 → numbers j ≢ 0)
      (fetchstr user 100)
fetchstr-IsString_example = fetchstr-IsString user 100

abbrev cpu : Cpu
cpu = record { interrupts = true; ncli = 0; intena = false }

release-acquire_example :
    Ends
      (λ _ t.
        (holds 1 t.lock ≡ true)
        × (t.here.interrupts ≡ false)
        × Ends (λ _ u. Same u.here cpu × (u.lock ≡ initlock)) (release 1 t))
      (acquire 1 (record { lock = initlock; here = cpu }))
release-acquire_example = release-acquire 1 (record { lock = initlock; here = cpu }) (inl refl) refl

abbrev one_page : Kmem
one_page = record { freelist = 2147491840; words = λ a. 0 }

one_page-Free : Free one_page (2147491840 ∷ [])
one_page-Free = (refl, ground arith, omega arith, tt, refl)

kfree-Free_example :
    Ends (λ _ t. Free t (2147487744 ∷ 2147491840 ∷ [])) (kfree 2147483648 2147487744 one_page)
kfree-Free_example =
    kfree-Free 2147483648 2147487744 one_page (2147491840 ∷ []) one_page-Free (ground arith, tt)
      refl (ground arith)

kalloc-Free_example : Ends (λ v t. Given (2147491840 ∷ []) v t) (kalloc one_page)
kalloc-Free_example = kalloc-Free one_page (2147491840 ∷ []) one_page-Free

abbrev no_files : Files
no_files = λ f. record {
  type = fd_none;
  ref = 0;
  readable = false;
  writable = false;
  pipe = 0;
  ip = 0;
  off = 0;
}

abbrev one_file : Files
one_file = put no_files 0 (record (no_files 0) { ref = 1 })

one_file-Reach : Reach one_file (add 0 (λ f. 0))
unfolding filealloc free_file
one_file-Reach = steps (starts {t = no_files} (λ f. refl)) (allocates 0 refl)

fileclose-last_example : (u : Files) × (fileclose 0 one_file ≡ done nothing u)
fileclose-last_example = fileclose-last one_file (λ f. 0) 0 one_file-Reach

-- `a*` on "aab", where the rest of the expression matches what starts with a b
abbrev starts_with_b : List ℕ → Bool
starts_with_b [] = false
starts_with_b (c ∷ text) = c == 98

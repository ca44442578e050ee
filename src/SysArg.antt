-- ===== src/SysArg.antt =====
-- syscall.c: the arguments of a system call, read from the memory of the process that makes it. An
-- address and an `int` are their 32 bits.
pub mod Bounds
use operating_systems_assign.Base.{
  Option, if◌then◌else◌, leb, ltb, map, none, some, suc, zero, ℕ, ◌%◌, ◌*◌, ◌+◌, ◌-◌, ◌==◌, ◌||◌,
}

abbrev pub word : ℕ
word = 4294967296

-- the parts of the process that the calls read: its size, its stack pointer and its memory
pub record User : Type 0 where
  pub sz : ℕ
  pub esp : ℕ
  pub int_at : ℕ → ℕ
  pub byte_at : ℕ → ℕ

unfoldable pub fetchint : User → ℕ → Option ℕ
fetchint u addr =
    if leb u.sz addr || ltb u.sz ((addr + 4) % word) then none else some (u.int_at addr)

-- the loop of `fetchstr` from `s` on, with `m` bytes to `ep`; the result is where it finds the NUL
unfoldable pub find_nul : User → ℕ → ℕ → Option ℕ
find_nul u s zero = none
find_nul u s (suc m) = let rest = find_nul u (suc s) m in if u.byte_at s == 0 then some s else rest

abbrev pub with_length : ℕ → Option ℕ → Option (ℕ × ℕ)
with_length addr none = none
with_length addr (some s) = some (addr, s - addr)

-- the pointer and the length
unfoldable pub fetchstr : User → ℕ → Option (ℕ × ℕ)
unfolding find_nul
fetchstr u addr = if leb u.sz addr then none else with_length addr (find_nul u addr (u.sz - addr))

unfoldable pub argint : User → ℕ → Option ℕ
unfolding fetchint
argint u n = fetchint u ((u.esp + 4 + 4 * n) % word)

abbrev pub check_ptr : User → ℕ → Option ℕ → Option ℕ
check_ptr u size none = none
check_ptr u size (some i) =
    if leb 2147483648 size || leb u.sz i || ltb u.sz ((i + size) % word) then none else some i

unfoldable pub argptr : User → ℕ → ℕ → Option ℕ
unfolding argint
argptr u n size = check_ptr u size (argint u n)

abbrev pub string_at : User → Option ℕ → Option (ℕ × ℕ)
string_at u none = none
string_at u (some addr) = fetchstr u addr

unfoldable pub argstr : User → ℕ → Option (ℕ × ℕ)
unfolding argint fetchstr
argstr u n = string_at u (argint u n)

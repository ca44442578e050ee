-- ===== src/Fs/Alloc.antt =====
-- fs.c: `bzero`, `balloc` and `bfree`, over the bitmap of the blocks in use.
pub mod Sound
pub mod Room
use operating_systems_assign.Base.{
  Option, if◌then◌else◌, ltb, none, some, suc, zero, ℕ, ◌%◌, ◌+◌, ◌/◌,
}
use operating_systems_assign.CString.{Bytes, rest}
use operating_systems_assign.Kernel.{Cmd, and_then, done, panics}
use operating_systems_assign.Fs.{Disk, Super, bpb, bsize, put_block, put_byte}
use operating_systems_assign.Fs.Bits.{bit_of, clear_bit, set_bit}

unfoldable pub bzero : ℕ → Cmd Disk (Unit {0})
bzero bno d = done tt (put_block d bno (λ i. if ltb i bsize then 0 else d bno i))

-- BBLOCK(b, sb)
abbrev pub bblock : Super → ℕ → ℕ
bblock sb b = b / bpb + sb.bmapstart

-- the inner loop of `balloc` from `bi` on, for `m` rounds: the first bit that is 0
unfoldable pub free_bit : ℕ → Bytes → ℕ → ℕ → ℕ → Option ℕ
free_bit size v b bi zero = none
free_bit size v b bi (suc m) =
    let rest = free_bit size v b (suc bi) m in
    if ltb (b + bi) size then (if bit_of (v (bi / 8)) (bi % 8) then rest else some bi) else none

-- the bit `bi` of the bitmap block of `b` set
unfoldable pub mark : Super → ℕ → ℕ → Disk → Disk
mark sb b bi d =
    let v = d (bblock sb b) in
    put_block d (bblock sb b) (put_byte v (bi / 8) (set_bit (v (bi / 8)) (bi % 8)))

-- what `balloc` does with the outcome of the inner loop
abbrev pub take_bit : Super → ℕ → Option ℕ → Cmd Disk ℕ → Cmd Disk ℕ
take_bit sb b none next d = next d
take_bit sb b (some bi) next d = and_then (bzero (b + bi) (mark sb b bi d)) (λ _ e. done (b + bi) e)

-- the outer loop from the block `b` on, for at most `m` rounds
unfoldable pub balloc_from : Super → ℕ → ℕ → Cmd Disk ℕ
unfolding bzero mark
balloc_from sb b zero d = panics
balloc_from sb b (suc m) d =
    let rest = balloc_from sb (b + bpb) m in
    if ltb b sb.size
    then take_bit sb b (free_bit sb.size (d (bblock sb b)) b 0 bpb) rest d
    else panics

unfoldable pub balloc : Super → Cmd Disk ℕ
unfolding balloc_from
balloc sb = balloc_from sb 0 (suc (sb.size / bpb))

unfoldable pub bfree : Super → ℕ → Cmd Disk (Unit {0})
bfree sb b d =
    let v = d (bblock sb b) in
    let bi = b % bpb in
    if bit_of (v (bi / 8)) (bi % 8)
    then done tt (put_block d (bblock sb b) (put_byte v (bi / 8) (clear_bit (v (bi / 8)) (bi % 8))))
    else panics

-- ===== src/CString/Memory.antt =====
-- string.c: `memset` and `memmove` against what they are to do to each byte.
use operating_systems_assign.Base.{
  ℕ, zero, suc, ◌+◌, ◌-◌, ◌*◌, ◌/◌, ◌%◌, ◌^◌, ◌≤◌, ◌<◌, ◌≡◌, ◌&&◌, arith, ltb, if◌then◌else◌, leb,
  ◌⊎◌,
}
use operating_systems_assign.CString.{
  Bytes, rest, store, stosb, stosl, memset, copy_down, copy_up, memmove,
}

-- the first `n` bytes are `c`, the others those of `p`
abbrev fill : Bytes → ℕ → ℕ → Bytes
fill p c n i = if ltb i n then c else p i

stosb-fill : (p : Bytes) (c n i : ℕ) → stosb p c n i ≡ fill p (c % 256) n i
unfolding stosb
stosb-fill p c zero i = ground arith
stosb-fill p c (suc n) zero = ground arith
stosb-fill p c (suc n) (suc i) = ground (arith, stosb-fill (rest p) c n i)

abbrev word : ℕ → ℕ
word b = b * 2 ^ 24 + b * 2 ^ 16 + b * 2 ^ 8 + b

stosl-fill : (p : Bytes) (b n i : ℕ) → b < 256 → stosl p (word b) n i ≡ fill p b (4 * n) i
unfolding stosl
stosl-fill p b zero i h = ground arith
stosl-fill p b (suc n) zero h = ground arith
stosl-fill p b (suc n) (suc zero) h = ground arith
stosl-fill p b (suc n) (suc (suc zero)) h = ground arith
stosl-fill p b (suc n) (suc (suc (suc zero))) h = ground arith
stosl-fill p b (suc n) (suc (suc (suc (suc i)))) h =
    ground (arith, stosl-fill (rest (rest (rest (rest p)))) b n i h)

-- Whichever fill the address and the length choose, `memset` sets exactly the first `n` bytes to
-- the low byte of `c` and leaves the others.
pub memset-fill :
    (dst : ℕ) (p : Bytes) (c n i : ℕ) → memset dst p c n i ≡ (if ltb i n then c % 256 else p i)
unfolding memset
memset-fill dst p c n i =
    ground (arith, stosb-fill p c n i, stosl-fill p (c % 256) (n / 4) i (omega arith))

-- the `n` bytes from `d` are those that stood from `s` on
abbrev moved : Bytes → ℕ → ℕ → ℕ → Bytes
moved m d s n a = if leb d a && ltb a (d + n) then m (s + (a - d)) else m a

copy_down-moved : (m : Bytes) (d s n a : ℕ) → s < d → copy_down m d s n a ≡ moved m d s n a
unfolding copy_down
copy_down-moved m d s zero a h = ground arith
copy_down-moved m d s (suc n) a h =
    ground (arith, copy_down-moved (store m (d + n) (m (s + n))) d s n a h)

copy_up-moved :
    (m : Bytes) (d s n a : ℕ) → (d ≤ s) ⊎ (s + n ≤ d) → copy_up m d s n a ≡ moved m d s n a
unfolding copy_up
copy_up-moved m d s zero a h = ground arith
copy_up-moved m d s (suc n) a h =
    ground (arith, copy_up-moved (store m d (m s)) (suc d) (suc s) n a)

-- `memmove` copies as if through a buffer, however the two regions overlap: each byte of the
-- destination is the byte that stood in the source before the call, and no other byte changes.
pub memmove-moved :
    (m : Bytes) (d s n a : ℕ)
    → memmove m d s n a ≡ (if leb d a && ltb a (d + n) then m (s + (a - d)) else m a)
unfolding memmove
memmove-moved m d s n a = ground (arith, copy_down-moved m d s n a, copy_up-moved m d s n a)

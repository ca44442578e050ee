-- ===== src/Fs/Bits.antt =====
-- The bits of a number: what `x & (1 << k)`, `x | (1 << k)` and `x & ~(1 << k)` do.
use operating_systems_assign.Base.{
  Bool, arith, false, if◌then◌else◌, suc, true, zero, ℕ, ◌%◌, ◌*◌, ◌+◌, ◌/◌, ◌<◌, ◌==◌, ◌≡◌,
}

unfoldable pub bit_of : ℕ → ℕ → Bool
bit_of x zero = x % 2 == 1
bit_of x (suc k) = bit_of (x / 2) k

unfoldable pub set_bit : ℕ → ℕ → ℕ
set_bit x zero = x / 2 * 2 + 1
set_bit x (suc k) = x % 2 + 2 * set_bit (x / 2) k

unfoldable pub clear_bit : ℕ → ℕ → ℕ
clear_bit x zero = x / 2 * 2
clear_bit x (suc k) = x % 2 + 2 * clear_bit (x / 2) k

halve : (r y : ℕ) → r < 2 → (r + 2 * y) / 2 ≡ y
halve r y h = omega arith

pub bit_of-set_bit : (x k j : ℕ) → bit_of (set_bit x k) j ≡ (if j == k then true else bit_of x j)
unfolding bit_of set_bit
bit_of-set_bit x zero zero = ground arith
bit_of-set_bit x zero (suc j) =
    let e : (x / 2 * 2 + 1) / 2 ≡ x / 2 = omega arith in simp (e) (ground arith)
bit_of-set_bit x (suc k) zero = ground arith
bit_of-set_bit x (suc k) (suc j) =
    let e = halve (x % 2) (set_bit (x / 2) k) (omega arith) in
    simp (e) (ground (arith, bit_of-set_bit (x / 2) k j))

pub bit_of-clear_bit :
    (x k j : ℕ) → bit_of (clear_bit x k) j ≡ (if j == k then false else bit_of x j)
unfolding bit_of clear_bit
bit_of-clear_bit x zero zero = ground arith
bit_of-clear_bit x zero (suc j) =
    let e : (x / 2 * 2) / 2 ≡ x / 2 = omega arith in simp (e) (ground arith)
bit_of-clear_bit x (suc k) zero = ground arith
bit_of-clear_bit x (suc k) (suc j) =
    let e = halve (x % 2) (clear_bit (x / 2) k) (omega arith) in
    simp (e) (ground (arith, bit_of-clear_bit (x / 2) k j))

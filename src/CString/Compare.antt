-- ===== src/CString/Compare.antt =====
-- string.c: `strncmp` and `memcmp` decide equality of strings and of bytes; `strlen` finds the NUL.
use operating_systems_assign.Base.{
  Bool-cases, arith, inl, inr, refl, some, suc, zero, ℕ, ◌<◌, ◌==◌, ◌↔◌, ◌≡◌, ◌≢◌,
}
use operating_systems_assign.Base.Int.{pos}
use operating_systems_assign.CString.{Bytes, memcmp, rest, strlen, strncmp}

-- `p` and `q` are the same string as far as `n` bytes: they agree up to a NUL or `n` bytes.
abbrev pub SameString : Bytes → Bytes → ℕ → Type 0
SameString p q n = (i : ℕ) → i < n → ((j : ℕ) → j < i → p j ≢ 0) → p i ≡ q i

pub strncmp_sound : (p q : Bytes) (n : ℕ) → strncmp p q n ≡ pos 0 → SameString p q n
unfolding strncmp
strncmp_sound p q zero e i h pre = absurd (omega arith)
strncmp_sound p q (suc n) e zero h pre = ground arith
strncmp_sound p q (suc n) e (suc i) h pre =
    strncmp_sound (rest p) (rest q) n (ground (arith, pre 0 (omega arith))) i (omega arith)
      (λ j l. pre (suc j) (omega arith))

-- A property of 0 and of every successor below a bound holds below it.
pub below-suc :
    (P : ℕ → Type 0) (i : ℕ) → P 0 → ((j : ℕ) → j < i → P (suc j)) → (j : ℕ) → j < suc i → P j
below-suc P i z s zero h = z
below-suc P i z s (suc j) h = s j (omega arith)

pub strncmp_complete : (p q : Bytes) (n : ℕ) → SameString p q n → strncmp p q n ≡ pos 0
unfolding strncmp
strncmp_complete p q zero s = refl
strncmp_complete p q (suc n) s = elim (Bool-cases (p 0 == 0)) [
  | inl z ↦ ground (arith, s 0 (omega arith) (λ j h. absurd (omega arith)))
  | inr nz ↦ ground (
    arith,
    s 0 (omega arith) (λ j h. absurd (omega arith)),
    strncmp_complete (rest p) (rest q) n
        (λ i h pre. s (suc i) (omega arith) (below-suc (λ j. p j ≢ 0) i (ground arith) pre)),
  )
]

-- `strncmp` returns 0 exactly when the two strings are the same as far as `n` bytes.
pub strncmp-SameString : (p q : Bytes) (n : ℕ) → (strncmp p q n ≡ pos 0) ↔ SameString p q n
strncmp-SameString p q n = (strncmp_sound p q n, strncmp_complete p q n)

memcmp_sound : (p q : Bytes) (n : ℕ) → memcmp p q n ≡ pos 0 → (i : ℕ) → i < n → p i ≡ q i
unfolding memcmp
memcmp_sound p q zero e i h = absurd (omega arith)
memcmp_sound p q (suc n) e zero h = ground arith
memcmp_sound p q (suc n) e (suc i) h =
    memcmp_sound (rest p) (rest q) n (ground arith) i (omega arith)

memcmp_complete : (p q : Bytes) (n : ℕ) → ((i : ℕ) → i < n → p i ≡ q i) → memcmp p q n ≡ pos 0
unfolding memcmp
memcmp_complete p q zero s = refl
memcmp_complete p q (suc n) s =
    ground (
      arith,
      s 0 (omega arith),
      memcmp_complete (rest p) (rest q) n (λ i h. s (suc i) (omega arith)),
    )

-- `memcmp` returns 0 exactly when the first `n` bytes are equal.
pub memcmp-eq : (p q : Bytes) (n : ℕ) → (memcmp p q n ≡ pos 0) ↔ ((i : ℕ) → i < n → p i ≡ q i)
memcmp-eq p q n = (memcmp_sound p q n, memcmp_complete p q n)

-- the first NUL of `p` is `p[n]`
abbrev pub FirstNul : Bytes → ℕ → Type 0
FirstNul p n = (p n ≡ 0) × ((i : ℕ) → i < n → p i ≢ 0)

pub strlen_sound :
    (fuel : ℕ) (p : Bytes) (n : ℕ) → strlen fuel p ≡ some n → (n < fuel) × FirstNul p n
unfolding strlen
strlen_sound zero p n e = cc
strlen_sound (suc fuel) p zero e = (omega arith, (ground arith, λ i h. absurd (omega arith)))
strlen_sound (suc fuel) p (suc n) e =
    let (a, (b, c)) = strlen_sound fuel (rest p) n (ground arith) in
    (omega arith, (b, below-suc (λ i. p i ≢ 0) n (ground arith) c))

pub strlen_complete :
    (fuel : ℕ) (p : Bytes) (n : ℕ) → n < fuel → FirstNul p n → strlen fuel p ≡ some n
unfolding strlen
strlen_complete zero p n h f = absurd (omega arith)
strlen_complete (suc fuel) p zero h f = ground arith
strlen_complete (suc fuel) p (suc n) h f = ground (
  arith,
  f.1 0 (omega arith),
  strlen_complete fuel (rest p) n (omega arith) (f.0, λ i l. f.1 (suc i) (omega arith)),
)

-- `strlen` returns `n` exactly when the first NUL is `p[n]`, and it looks far enough if `fuel`
-- exceeds the length.
pub strlen-FirstNul :
    (fuel : ℕ) (p : Bytes) (n : ℕ) → (strlen fuel p ≡ some n) ↔ ((n < fuel) × FirstNul p n)
strlen-FirstNul fuel p n = (strlen_sound fuel p n, λ h. strlen_complete fuel p n h.0 h.1)

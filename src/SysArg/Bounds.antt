-- ===== src/SysArg/Bounds.antt =====
-- syscall.c: what the kernel takes from a process lies in the memory of that process. Its size is
-- below KERNBASE, which `allocuvm` sees to.
use operating_systems_assign.Base.{
  Option, arith, none, some, suc, zero, ℕ, ◌+◌, ◌<◌, ◌≡◌, ◌≢◌, ◌≤◌, Bool-cases, false,
  if◌then◌else◌, inl, inr, leb, ltb, refl, true, ◌%◌, ◌&&◌, ◌==◌, ◌||◌, ◌⊎◌, ◌-◌,
}
use operating_systems_assign.SysArg.{User, argint, argptr, find_nul, fetchstr, word, with_length}

abbrev kernbase : ℕ
kernbase = 2147483648

-- A result, if there is one, satisfies the predicate; if there is none, the other one holds.
abbrev pub Result : {A : Type 0} → (A → Type 0) → Type 0 → Option A → Type 0
Result P Q (some a) = P a
Result P Q none = Q

-- `argptr` accepts the argument `i` for a block of memory exactly when the block starts in the process
-- and ends at most at its size; the end does not wrap around.
pub argptr-inside :
    (u : User) (n size i : ℕ)
    → u.sz ≤ kernbase
    → argint u n ≡ some i
    → argptr u n size
      ≡ (if ltb size kernbase && ltb i u.sz && leb (i + size) u.sz then some i else none)
unfolding argptr
argptr-inside u n size i small e =
    elim (Bool-cases (ltb size kernbase && ltb i u.sz && leb (i + size) u.sz)) [
      | inl k ↦
          (let c : (leb 2147483648 size || leb u.sz i || ltb u.sz ((i + size) % word)) ≡ false =
              ground arith in
            simp (e, c, k) refl)
      | inr k ↦
          (let c : (leb 2147483648 size || leb u.sz i || ltb u.sz ((i + size) % word)) ≡ true =
              ground arith in
            simp (e, c, k) refl)
    ]

first_or_later : (s j : ℕ) → s ≤ j → (j ≡ s) ⊎ (suc s ≤ j)
first_or_later s j h = omega arith

Result-mono :
    {A : Type 0} {P P' : A → Type 0} {Q Q' : Type 0} (r : Option A)
    → ((a : A) → P a → P' a)
    → (Q → Q')
    → Result P Q r
    → Result P' Q' r
Result-mono (some a) f g p = f a p
Result-mono none f g q = g q

-- `find_nul` finds the first NUL of the process from `s` on.
pub find_nul-first :
    (u : User) (m s : ℕ)
    → Result
        (λ e.
          (s ≤ e) × (e < s + m) × (u.byte_at e ≡ 0) × ((j : ℕ) → s ≤ j → j < e → u.byte_at j ≢ 0))
        ((j : ℕ) → s ≤ j → j < s + m → u.byte_at j ≢ 0)
        (find_nul u s m)
unfolding find_nul
find_nul-first u zero s = λ j a b. ground arith
find_nul-first u (suc m) s = elim (Bool-cases (u.byte_at s == 0)) [
  | inl e ↦ simp (e) (omega arith, omega arith, ground arith, λ j a b. absurd (omega arith))
  | inr e ↦ simp (e) (
      Result-mono (find_nul u (suc s) m)
        (λ a (l, h, z, first). (
          omega arith,
          omega arith,
          z,
          λ j k i. elim (first_or_later s j k) [
            | inl same ↦ ground arith
            | inr later ↦ first j later i
          ],
        ))
        (λ none_later j k i. elim (first_or_later s j k) [
          | inl same ↦ ground arith
          | inr later ↦ none_later j later (omega arith)
        ])
        (find_nul-first u m (suc s)))
]

-- what is known of a string argument: it starts and ends in the process, with the first NUL at its
-- end
abbrev pub IsString : User → ℕ × ℕ → Type 0
IsString u (addr, len) =
    (addr + len < u.sz)
    × (u.byte_at (addr + len) ≡ 0)
    × ((j : ℕ) → addr ≤ j → j < addr + len → u.byte_at j ≢ 0)

with_length-IsString :
    (u : User) (addr : ℕ) (r : Option ℕ)
    → addr < u.sz
    → Result
        (λ e.
          (addr ≤ e)
          × (e < addr + (u.sz - addr))
          × (u.byte_at e ≡ 0)
          × ((j : ℕ) → addr ≤ j → j < e → u.byte_at j ≢ 0))
        ((j : ℕ) → addr ≤ j → j < addr + (u.sz - addr) → u.byte_at j ≢ 0)
        r
    → Result
        (λ s. (s.0 ≡ addr) × IsString u s)
        ((j : ℕ) → addr ≤ j → j < u.sz → u.byte_at j ≢ 0)
        (with_length addr r)
with_length-IsString u addr (some e) l (a, b, z, first) =
    let q : addr + (e - addr) ≡ e = omega arith in
    (refl, (omega arith, ground arith, λ j k h. first j k (omega arith)))
with_length-IsString u addr none l none_there = λ j k h. none_there j k (omega arith)

-- `fetchstr` gives the address and the length of a string that lies in the process, with its NUL; it
-- fails only if no NUL stands between the address and the end of the process.
pub fetchstr-IsString :
    (u : User) (addr : ℕ)
    → Result
        (λ r. (r.0 ≡ addr) × IsString u r)
        ((j : ℕ) → addr ≤ j → j < u.sz → u.byte_at j ≢ 0)
        (fetchstr u addr)
unfolding fetchstr
fetchstr-IsString u addr = elim (Bool-cases (leb u.sz addr)) [
  | inl e ↦ simp (e) (λ j a b. absurd (ground arith))
  | inr e ↦ simp (e) (
      with_length-IsString u addr (find_nul u addr (u.sz - addr)) (ground arith)
        (find_nul-first u (u.sz - addr) addr))
]

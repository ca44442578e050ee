-- ===== src/CString/Copy.antt =====
-- string.c: what `strncpy` and `safestrcpy` leave in the destination.
use operating_systems_assign.Base.{
  Bool-cases, arith, if◌then◌else◌, inl, inr, ltb, refl, suc, sym, zero, ℕ, ◌<◌, ◌==◌, ◌∙◌, ◌≡◌,
  ◌≢◌, ◌≤◌,
}
use operating_systems_assign.CString.{Bytes, cons, rest, safe_copy, safestrcpy, strncpy, zero_fill}
use operating_systems_assign.CString.Compare.{FirstNul, SameString, below-suc}

-- byte `i` of the string `t`, 0 behind its NUL
abbrev pub padded : Bytes → ℕ → ℕ
padded t zero = t 0
padded t (suc i) = if t 0 == 0 then 0 else padded (rest t) i

zero_fill_lem : (s : Bytes) (n i : ℕ) → zero_fill s n i ≡ (if ltb i n then 0 else s i)
unfolding zero_fill
zero_fill_lem s zero i = ground arith
zero_fill_lem s (suc n) zero = ground arith
zero_fill_lem s (suc n) (suc i) = ground (arith, zero_fill_lem (rest s) n i)

-- `strncpy` writes exactly `n` bytes: the string `t` cut off at `n`, and zeros behind its NUL.
pub strncpy-padded :
    (s t : Bytes) (n i : ℕ) → strncpy s t n i ≡ (if ltb i n then padded t i else s i)
unfolding strncpy
strncpy-padded s t zero i = ground arith
strncpy-padded s t (suc n) zero = ground arith
strncpy-padded s t (suc n) (suc i) =
    ground (arith, zero_fill_lem (rest s) n i, strncpy-padded (rest s) (rest t) n i)

-- Before its first NUL a string is its padded self.
pub padded-eq : (t : Bytes) (i : ℕ) → ((j : ℕ) → j < i → t j ≢ 0) → padded t i ≡ t i
padded-eq t zero h = refl
padded-eq t (suc i) h =
    ground (arith, h 0 (omega arith), padded-eq (rest t) i (λ j l. h (suc j) (omega arith)))

padded_before : (t : Bytes) (i : ℕ) → padded t i ≢ 0 → t i ≡ padded t i
padded_before t zero h = refl
padded_before t (suc i) h = ground (arith, padded_before (rest t) i)

padded_zero : (t : Bytes) (j : ℕ) → padded t j ≡ 0 → (i : ℕ) → j ≤ i → padded t i ≡ 0
padded_zero t zero e zero h = e
padded_zero t zero e (suc i) h = ground arith
padded_zero t (suc j) e zero h = absurd (omega arith)
padded_zero t (suc j) e (suc i) h =
    ground (arith, λ (q : padded (rest t) j ≡ 0). padded_zero (rest t) j q i (omega arith))

-- Where the padded string has no NUL before `i`, neither has the string.
padded-ne : (t : Bytes) (i : ℕ) → ((j : ℕ) → j < i → padded t j ≢ 0) → (j : ℕ) → j < i → t j ≢ 0
padded-ne t i h j l e = h j l (sym (padded_before t j (h j l)) ∙ e)

-- A copy by `strncpy` compares equal to its source, whatever the destination held.
pub strncmp-strncpy : (s t : Bytes) (n : ℕ) → SameString (strncpy s t n) t n
strncmp-strncpy s t n i h pre =
    let step : strncpy s t n i ≡ padded t i = ground (arith, strncpy-padded s t n i) in
    step ∙ padded-eq t i (padded-ne t i (λ j l e. pre j l (ground (arith, strncpy-padded s t n j))))

-- What `safestrcpy` leaves for a bound `suc n`: a string of `len` bytes that are those of `t`,
-- its NUL at `len`, all of `t` unless it was cut off at `n`, and the bytes from `suc n` on as before.
pub record SafeCopy (s t out : Bytes) (n : ℕ) : Type 0 where
  pub len : ℕ
  pub within : len ≤ n
  pub nul : FirstNul out len
  pub same : (i : ℕ) → i < len → out i ≡ t i
  pub whole : len < n → t len ≡ 0
  pub outside : (i : ℕ) → n < i → out i ≡ s i

safe_copy-SafeCopy : (s t : Bytes) (n : ℕ) → SafeCopy s t (safe_copy s t n) n
unfolding safe_copy
safe_copy-SafeCopy s t zero = record {
  len = 0;
  within = omega arith;
  nul = (refl, λ i h. absurd (omega arith));
  same = λ i h. absurd (omega arith);
  whole = λ h. absurd (omega arith);
  outside = elim [ zero ↦ λ h. absurd (omega arith) | suc i ↦ λ h. refl ];
}
safe_copy-SafeCopy s t (suc n) = elim (Bool-cases (t 0 == 0)) [
  | inl z ↦ rw z (record {
    len = 0;
    within = omega arith;
    nul = (ground arith, λ i h. absurd (omega arith));
    same = λ i h. absurd (omega arith);
    whole = λ h. ground arith;
    outside = elim [
      | zero ↦ λ h. absurd (omega arith)
      | suc zero ↦ λ h. absurd (omega arith)
      | suc (suc i) ↦ λ h. refl
    ];
  })
  | inr nz ↦ rw nz (
      let ih = safe_copy-SafeCopy (rest s) (rest t) n in
      record {
        len = suc ih.len;
        within = omega (arith, ih.within);
        nul = (
          ih.nul.0,
          below-suc (λ i. cons (t 0) (safe_copy (rest s) (rest t) n) i ≢ 0) ih.len (ground arith)
              ih.nul.1,
        );
        same =
            below-suc (λ i. cons (t 0) (safe_copy (rest s) (rest t) n) i ≡ t i) ih.len refl ih.same;
        whole = λ h. ih.whole (omega arith);
        outside = elim [
          | zero ↦ λ h. absurd (omega arith)
          | suc i ↦ λ h. ih.outside i (omega arith)
        ];
      })
]

-- `safestrcpy` with a positive bound leaves a NUL-terminated prefix of `t`, whole if it fits, and
-- writes nothing at or behind the bound.
pub safestrcpy-SafeCopy : (s t : Bytes) (n : ℕ) → SafeCopy s t (safestrcpy s t (suc n)) n
unfolding safestrcpy
safestrcpy-SafeCopy s t n = safe_copy-SafeCopy s t n

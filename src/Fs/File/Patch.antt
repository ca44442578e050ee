-- ===== src/Fs/File/Patch.antt =====
-- fs.c: bytes written at an offset, in one piece and round by round.

use operating_systems_assign.Fs.File.Read.{chunk, chunk-bounds}
use operating_systems_assign.Base.{
  Bool-cases, List, ap, arith, drop, false, get_or, get_or-drop, get_or-take, if◌then◌else◌, inl,
  inr, leb, length, length-drop, length-take, ltb, refl, suc, sym, take, true, ℕ, ◌%◌, ◌&&◌, ◌+◌,
  ◌-◌, ◌/◌, ◌<◌, ◌==◌, ◌∙◌, ◌≡◌, ◌≢◌, ◌≤◌, ◌⊎◌,
}
use operating_systems_assign.Fs.{bsize}
use operating_systems_assign.Fs.File.{View, write_at}
use operating_systems_assign.Fs.File.Mapping.{
  addr_of, byte_at, byte_at-there, if_at, if_off, same_or_not,
}

-- the bytes `f` with `src` written at `off`
abbrev pub patched : (ℕ → ℕ) → ℕ → List ℕ → ℕ → ℕ
patched f off src x = if leb off x && ltb x (off + length src) then get_or src (x - off) 0 else f x

-- the rounds that the loop makes
abbrev pub rounds : ℕ → ℕ → ℕ
rounds off n = if n == 0 then 0 else (off % bsize + n + 511) / bsize

module _ (f : ℕ → ℕ) (off : ℕ) (src : List ℕ) (x : ℕ) where
  pub patched-in : off ≤ x → x < off + length src → patched f off src x ≡ get_or src (x - off) 0
  patched-in l h =
      let o : (leb off x && ltb x (off + length src)) ≡ true = ground arith in simp (o) refl

  pub patched-out : (x < off) ⊎ (off + length src ≤ x) → patched f off src x ≡ f x
  patched-out h =
      let o : (leb off x && ltb x (off + length src)) ≡ false = ground arith in simp (o) refl

  inside : ((off ≤ x) × (x < off + length src)) ⊎ ((x < off) ⊎ (off + length src ≤ x))
  inside = elim (Bool-cases (ltb x off)) [
    | inl l ↦ inr (inl (ground arith))
    | inr l ↦ elim (Bool-cases (ltb x (off + length src))) [
      | inl m ↦ inl (ground arith, ground arith)
      | inr m ↦ inr (inr (ground arith))
    ]
  ]

-- what is written in two parts is written as a whole
pub patched-next :
    (f : ℕ → ℕ) (off k : ℕ) (src : List ℕ) (x : ℕ)
    → k ≤ length src
    → patched (patched f off (take k src)) (off + k) (drop k src) x ≡ patched f off src x
patched-next f off k src x h =
    let lt = length-take k src in
    let ld = length-drop k src in
    let n = length src in
    let g = patched f off (take k src) in
    elim (inside (g) (off + k) (drop k src) x) [
      | inl (a, b) ↦
          patched-in g (off + k) (drop k src) x a b
          ∙ get_or-drop k src (x - (off + k)) (x - off) 0 (omega arith)
          ∙ sym (patched-in f off src x (omega arith) (omega arith))
      | inr o ↦ patched-out g (off + k) (drop k src) x o ∙ elim (inside f off (take k src) x) [
        | inl (a, b) ↦
            patched-in f off (take k src) x a b
            ∙ get_or-take k src (x - off) 0 (omega arith)
            ∙ sym (patched-in f off src x a (omega arith))
        | inr p ↦ patched-out f off (take k src) x p ∙ sym (patched-out f off src x (omega arith))
      ]
    ]

-- a round's bytes in its block are the bytes written at its offset
pub write_at-patched :
    (t : View) (off : ℕ) (src : List ℕ) (x : ℕ)
    → addr_of t (off / bsize) ≢ 0
    → off % bsize + length src ≤ bsize
    → (if x / bsize == off / bsize
        then write_at (t.disk (addr_of t (off / bsize))) (off % bsize) src (x % bsize)
        else byte_at t x)
      ≡ patched (byte_at t) off src x
write_at-patched t off src x there h =
    let v = t.disk (addr_of t (off / bsize)) in
    elim (same_or_not (x / bsize) (off / bsize)) [
      | inr q ↦
          if_off (x / bsize) (off / bsize) (write_at v (off % bsize) src (x % bsize)) (byte_at t x)
            q
          ∙ sym (patched-out (byte_at t) off src x (omega arith))
      | inl q ↦
          if_at (x / bsize) (off / bsize) (write_at v (off % bsize) src (x % bsize)) (byte_at t x) q
          ∙ elim (inside (byte_at t) off src x) [
            | inl (a, b) ↦
                patched-in v (off % bsize) src (x % bsize) (omega arith) (omega arith)
                ∙ ap (λ (i : ℕ). get_or src i 0) (omega arith)
                ∙ sym (patched-in (byte_at t) off src x a b)
            | inr o ↦
                patched-out v (off % bsize) src (x % bsize)
                  (elim o [ inl a ↦ inl (omega arith) | inr a ↦ inr (omega arith) ])
                ∙ sym (
                    byte_at-there t x (λ z. there (ap (addr_of t) (sym q) ∙ z))
                    ∙ ap (λ (y : ℕ). t.disk (addr_of t y) (x % bsize)) q)
                ∙ sym (patched-out (byte_at t) off src x o)
          ]
    ]

pub rounds_next :
    (off n : ℕ) → n ≢ 0 → suc (rounds (off + chunk off n) (n - chunk off n)) ≡ rounds off n
rounds_next off n ne = let (one, le, fit) = chunk-bounds off n ne in ground arith

-- ===== src/CString.antt =====
-- string.c: memory and string primitives of the kernel. `Bytes` is memory from a pointer on, so
-- `p i` is `p[i]`; `memmove` works on one memory by address, because its objects may overlap.
-- `memset` follows its two fills of x86.h, by words and by bytes.
pub mod Memory
pub mod Compare
pub mod Copy
use operating_systems_assign.Base.{
  ℕ, zero, suc, ◌+◌, ◌*◌, ◌/◌, ◌%◌, ◌^◌, Bool, true, false, ◌&&◌, Option, none, some, List, [], ◌∷◌,
  ltb, ◌==◌, if◌then◌else◌, get_or, not,
}
use operating_systems_assign.Base.Int.{ℤ, pos, sub_ℕ}

abbrev pub Bytes : Type 0
Bytes = ℕ → ℕ

-- `p + 1`
abbrev pub rest : Bytes → Bytes
rest p i = p (suc i)

-- The memory `p` with its first byte set to `c`, given what follows that byte.
abbrev pub cons : ℕ → Bytes → Bytes
cons c p zero = c
cons c p (suc i) = p i

-- a `char` array as a list, seen from its start, and the array of the first `n` bytes
abbrev pub view : List ℕ → Bytes
view xs i = get_or xs i 0

abbrev pub array : ℕ → Bytes → List ℕ
array zero p = []
array (suc n) p = p 0 ∷ array n (rest p)

-- stores the low byte of `c` in `n` bytes
stosb : Bytes → ℕ → ℕ → Bytes
stosb p c zero = p
stosb p c (suc n) = cons (c % 256) (stosb (rest p) c n)

-- stores the 32-bit word `w`, low byte first, `n` times
stosl : Bytes → ℕ → ℕ → Bytes
stosl p w zero = p
stosl p w (suc n) = cons (w % 256) (
    cons (w / 256 % 256) (
      cons (w / 256 / 256 % 256)
        (cons (w / 256 / 256 / 256 % 256) (stosl (rest (rest (rest (rest p)))) w n))))

-- `dst` is the address of the bytes `p`; the word has `c & 0xFF` in each of its four bytes
pub memset : ℕ → Bytes → ℕ → ℕ → Bytes
unfolding stosb stosl
memset dst p c n =
    if dst % 4 == 0 && n % 4 == 0
    then (let b = c % 256 in stosl p (b * 2 ^ 24 + b * 2 ^ 16 + b * 2 ^ 8 + b) (n / 4))
    else stosb p c n

pub memcmp : Bytes → Bytes → ℕ → ℤ
memcmp s1 s2 zero = pos 0
memcmp s1 s2 (suc n) = if s1 0 == s2 0 then memcmp (rest s1) (rest s2) n else sub_ℕ (s1 0) (s2 0)

-- one byte of memory written
abbrev pub store : Bytes → ℕ → ℕ → Bytes
store m a v x = if x == a then v else m x

copy_down : Bytes → ℕ → ℕ → ℕ → Bytes
copy_down m d s zero = m
copy_down m d s (suc n) = copy_down (store m (d + n) (m (s + n))) d s n

copy_up : Bytes → ℕ → ℕ → ℕ → Bytes
copy_up m d s zero = m
copy_up m d s (suc n) = copy_up (store m d (m s)) (suc d) (suc s) n

-- `memmove(d, s, n)` in the memory `m`
pub memmove : Bytes → ℕ → ℕ → ℕ → Bytes
memmove m d s n = if ltb s d && ltb d (s + n) then copy_down m d s n else copy_up m d s n

pub memcpy : Bytes → ℕ → ℕ → ℕ → Bytes
memcpy m d s n = memmove m d s n

unfoldable pub strncmp : Bytes → Bytes → ℕ → ℤ
strncmp p q zero = pos 0
strncmp p q (suc n) =
    if not (p 0 == 0) && p 0 == q 0 then strncmp (rest p) (rest q) n else sub_ℕ (p 0) (q 0)

-- the second loop of `strncpy`
zero_fill : Bytes → ℕ → Bytes
zero_fill s zero = s
zero_fill s (suc n) = cons 0 (zero_fill (rest s) n)

-- `t` does not overlap the `n` bytes at `s`
unfoldable pub strncpy : Bytes → Bytes → ℕ → Bytes
unfolding zero_fill
strncpy s t zero = s
strncpy s t (suc n) =
    cons (t 0) (if t 0 == 0 then zero_fill (rest s) n else strncpy (rest s) (rest t) n)

-- the loop of `safestrcpy` once `n` is decremented, and the NUL that it writes behind the copy
safe_copy : Bytes → Bytes → ℕ → Bytes
safe_copy s t zero = cons 0 (rest s)
safe_copy s t (suc n) =
    cons (t 0) (if t 0 == 0 then cons 0 (rest (rest s)) else safe_copy (rest s) (rest t) n)

pub safestrcpy : Bytes → Bytes → ℕ → Bytes
unfolding safe_copy
safestrcpy s t zero = s
safestrcpy s t (suc n) = safe_copy s t n

-- The loop looks at most `fuel` bytes far; `none` is a string that has not ended by then.
unfoldable pub strlen : ℕ → Bytes → Option ℕ
strlen zero s = none
strlen (suc fuel) s =
    let more = strlen fuel (rest s) in
    if s 0 == 0 then some 0 else elim more [ none ↦ none | some n ↦ some (suc n) ]

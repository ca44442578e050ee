-- ===== src/UserLib.antt =====
-- ulib.c: the routines on strings of the user programs.
use operating_systems_assign.Base.{
  List, Option, [], if◌then◌else◌, leb, none, not, some, suc, zero, ℕ, ◌%◌, ◌&&◌, ◌*◌, ◌+◌, ◌-◌,
  ◌==◌, ◌^◌, ◌∷◌, arith, ltb, ◌≡◌, ◌≤◌, ◌⊎◌,
}
use operating_systems_assign.Base.Int.{sub_ℕ, ℤ}
use operating_systems_assign.CString.{Bytes, cons, rest, store}

-- The loops run until a NUL; `fuel` bounds the string, and none is a string that is longer.
unfoldable pub strcpy : ℕ → Bytes → Bytes → Option Bytes
strcpy zero s t = none
strcpy (suc fuel) s t =
    let later = strcpy fuel (rest s) (rest t) in
    if t 0 == 0 then some (cons 0 (rest s)) else put_first (t 0) later
  where
    put_first : ℕ → Option Bytes → Option Bytes
    put_first c none = none
    put_first c (some r) = some (cons c r)

unfoldable pub strcmp : ℕ → Bytes → Bytes → Option ℤ
strcmp zero p q = none
strcmp (suc fuel) p q =
    let later = strcmp fuel (rest p) (rest q) in
    if not (p 0 == 0) && p 0 == q 0 then later else some (sub_ℕ (p 0) (q 0))

-- the index of the character, none for a pointer 0; the string is the list before its NUL
unfoldable pub strchr : List ℕ → ℕ → Option ℕ
strchr [] c = none
strchr (x ∷ s) c = let later = strchr s c in if x == c then some 0 else one_more later
  where
    one_more : Option ℕ → Option ℕ
    one_more none = none
    one_more (some i) = some (suc i)

-- the loop of `atoi` with the number `n` so far, an `int` as its 32 bits
unfoldable pub atoi_from : ℕ → List ℕ → ℕ
atoi_from n [] = n
atoi_from n (x ∷ s) =
    let later = atoi_from ((n * 10 + x - 48) % 2 ^ 32) s in
    if leb 48 x && leb x 57 then later else n

unfoldable pub atoi : List ℕ → ℕ
unfolding atoi_from
atoi s = atoi_from 0 s

unfoldable pub strlen_user : ℕ → Bytes → Option ℕ
strlen_user zero s = none
strlen_user (suc fuel) s =
    let later = strlen_user fuel (rest s) in if s 0 == 0 then some 0 else one_longer later
  where
    one_longer : Option ℕ → Option ℕ
    one_longer none = none
    one_longer (some n) = some (suc n)

-- `memset` by `stosb`, which stores the low byte
unfoldable pub memset_user : Bytes → ℕ → ℕ → Bytes
memset_user dst c zero = dst
memset_user dst c (suc n) = cons (c % 256) (memset_user (rest dst) c n)

-- `memmove`, which copies upwards whatever the overlap
unfoldable pub memmove_user : Bytes → ℕ → ℕ → ℕ → Bytes
memmove_user m dst src zero = m
memmove_user m dst src (suc n) = memmove_user (store m dst (m src)) (suc dst) (suc src) n

-- The `memmove` of the user library copies as if through a buffer only where the destination does not
-- begin inside the source.
pub memmove_user-apart :
    (m : Bytes) (d s n a : ℕ)
    → (d ≤ s) ⊎ (s + n ≤ d)
    → memmove_user m d s n a ≡ (if leb d a && ltb a (d + n) then m (s + (a - d)) else m a)
unfolding memmove_user
memmove_user-apart m d s zero a h = ground arith
memmove_user-apart m d s (suc n) a h =
    ground (arith, memmove_user-apart (store m d (m s)) (suc d) (suc s) n a)

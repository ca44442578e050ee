-- ===== src/Users/Layout.antt =====
-- usermanage.c: the bytes of /passwd. A table is read back from the bytes that it is written as.
use mathlib.Core.List.{append_assoc}
use operating_systems_assign.Base.{
  All, List, [], arith, drop-append, length, length-append, refl, take-append, ℕ, ◌*◌, ◌++◌, ◌<◌,
  ◌^◌, ◌∷◌, ◌≡◌,
}
use operating_systems_assign.Users.{
  User, table_bytes, table_of_bytes, uint_bytes, uint_of_bytes, user_bytes, user_of_bytes,
  user_size,
}

-- what the C type `struct User` gives: arrays of 16, and a `uint`
pub record IsUser (u : User) : Type 0 where
  pub username_16 : length u.username ≡ 16
  pub passwd_16 : length u.passwd ≡ 16
  pub uid_small : u.uid < 2 ^ 32

pub uint_round : (x : ℕ) → x < 2 ^ 32 → uint_of_bytes (uint_bytes x) ≡ x
unfolding uint_bytes uint_of_bytes
uint_round x h = omega arith

pub length-uint_bytes : (x : ℕ) → length (uint_bytes x) ≡ 4
unfolding uint_bytes
length-uint_bytes x = refl

length-user_bytes : (u : User) → IsUser u → length (user_bytes u) ≡ user_size
unfolding user_bytes uint_bytes
length-user_bytes u h = omega (
  arith,
  length-append {0} u.username (u.passwd ++ uint_bytes u.uid),
  length-append {0} u.passwd (uint_bytes u.uid),
)

pub length-table_bytes :
    (us : List User) → All IsUser us → length (table_bytes us) ≡ user_size * length us
unfolding table_bytes
length-table_bytes [] h = refl
length-table_bytes (u ∷ us) h = omega (
  arith,
  length-append {0} (user_bytes u) (table_bytes us),
  length-user_bytes u h.0,
  length-table_bytes us h.1,
)

uint_round-append : (x : ℕ) (more : List ℕ) → x < 2 ^ 32 → uint_of_bytes (uint_bytes x ++ more) ≡ x
unfolding uint_bytes uint_of_bytes
uint_round-append x more h = omega arith

user_round : (u : User) (more : List ℕ) → IsUser u → user_of_bytes (user_bytes u ++ more) ≡ u
unfolding user_of_bytes user_bytes
user_round u more h =
    let tail = u.passwd ++ (uint_bytes u.uid ++ more) in
    rw (append_assoc, append_assoc)
      (ground (
        arith,
        take-append u.username tail 16,
        drop-append u.username tail 16,
        take-append u.passwd (uint_bytes u.uid ++ more) 16,
        drop-append u.passwd (uint_bytes u.uid ++ more) 16,
        uint_round-append u.uid more,
      ))

-- Reading as many users as were written gives the table back.
pub table_round :
    (us : List User) (more : List ℕ)
    → All IsUser us
    → table_of_bytes (length us) (table_bytes us ++ more) ≡ us
unfolding table_of_bytes table_bytes
table_round [] more h = refl
table_round (u ∷ us) more h = rw (
  append_assoc,
  user_round u (table_bytes us ++ more) h.0,
  drop-append (user_bytes u) (table_bytes us ++ more) 36 (length-user_bytes u h.0),
  table_round us more h.1,
)

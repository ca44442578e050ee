-- ===== src/Users/Table.antt =====
-- usermanage.c: what the searches of the table find, and what a changed entry does to them.
use operating_systems_assign.Base.{
  List, Option, [], ap, arith, if◌then◌else◌, inl, length, none, refl, set, some, suc, sym, true,
  zero, ℕ, ◌+◌, ◌-◌, ◌<◌, ◌==◌, ◌∙◌, ◌∷◌, ◌≡◌, ◌≢◌, ◌≤◌, ◌⊎◌, Bool-cases, inr, false,
}
use operating_systems_assign.Base.Int.{negsuc, pos, ℤ}
use operating_systems_assign.CString.{Bytes, array, rest, strncpy, view}
use operating_systems_assign.CString.Compare.{SameString, strncmp_complete, strncmp_sound}
use operating_systems_assign.CString.Copy.{strncmp-strncpy}
use operating_systems_assign.Users.{
  User, copy_field, find_user_with_username, is_zero, same_name, scan_free, user_at,
}

view-array : (n : ℕ) (f : Bytes) (i : ℕ) → i < n → view (array n f) i ≡ f i
view-array zero f i h = absurd (omega arith)
view-array (suc n) f zero h = refl
view-array (suc n) f (suc i) h = view-array n (rest f) i (omega arith)

pub length-array : (n : ℕ) (f : Bytes) → length (array n f) ≡ n
length-array zero f = refl
length-array (suc n) f = ap suc (length-array n (rest f))

is_zero-eq : (z : ℤ) → is_zero z ≡ true → z ≡ pos 0
unfolding is_zero
is_zero-eq (pos zero) e = refl
is_zero-eq (pos (suc n)) e = cc
is_zero-eq (negsuc n) e = cc

pub is_zero-ne : {z : ℤ} → z ≡ pos 0 → is_zero z ≡ false → ⊥
unfolding is_zero
is_zero-ne e h = cc (ap is_zero e)

-- The string in `xs` and the string `name` are the same, as far as 16 bytes.
pub same_name-SameString :
    (xs : List ℕ) (name : Bytes) → same_name xs name ≡ true → SameString (view xs) name 16
unfolding same_name
same_name-SameString xs name e = strncmp_sound (view xs) name 16 (is_zero-eq _ e)

pub SameString-same_name :
    (xs : List ℕ) (name : Bytes) → SameString (view xs) name 16 → same_name xs name ≡ true
unfolding same_name
SameString-same_name xs name s = rw (strncmp_complete (view xs) name 16 s)

pub SameString-trans :
    (p q r : Bytes) (n : ℕ) → SameString p q n → SameString q r n → SameString p r n
SameString-trans p q r n s t i h pre =
    s i h pre ∙ t i h (λ j l e. pre j l (s j (omega arith) (λ k m. pre k (omega arith)) ∙ e))

-- `SameString` both ways round, up to a place before which `q` has no NUL.
prefix-eq :
    (p q : Bytes) (n : ℕ) (s : SameString p q n) (i : ℕ)
    → i ≤ n
    → ((j : ℕ) → j < i → q j ≢ 0)
    → (j : ℕ) → j < i
    → p j ≢ 0
prefix-eq p q n s zero h pre j l e = absurd (omega arith)
prefix-eq p q n s (suc i) h pre j l e = pre j l (
    sym (
      s j (omega arith)
        (λ k m. prefix-eq p q n s i (omega arith) (λ k' m'. pre k' (omega arith)) k (omega arith)))
    ∙ e)

pub SameString-sym : (p q : Bytes) (n : ℕ) → SameString p q n → SameString q p n
SameString-sym p q n s i h pre = sym (s i h (prefix-eq p q n s i (omega arith) pre))

-- A field filled by `strncpy` holds the name.
pub same_name-copy_field : (xs : List ℕ) (t : Bytes) → same_name (copy_field xs t) t ≡ true
unfolding copy_field
same_name-copy_field xs t = SameString-same_name _ t λ i h pre.
    let e = view-array 16 (strncpy (view xs) t 16) in
    e i h ∙ strncmp-strncpy (view xs) t 16 i h (λ j l z. pre j l (e j (omega arith) ∙ z))

-- the entry is in use and carries the name
abbrev pub Carries : User → Bytes → Type 0
Carries u name = (u.uid ≢ 0) × (same_name u.username name ≡ true)

pub find-some :
    (us : List User) (name : Bytes) (i : ℕ)
    → find_user_with_username us name ≡ some i
    → (i < length us) × Carries (user_at us i) name
unfolding find_user_with_username
find-some [] name i e = absurd (cc)
find-some (u ∷ us) name zero e = ground arith
find-some (u ∷ us) name (suc i) e = ground (arith, find-some us name i)

pub find-none :
    (us : List User) (name : Bytes)
    → find_user_with_username us name ≡ none
    → (i : ℕ) → i < length us
    → ¬ Carries (user_at us i) name
unfolding find_user_with_username
find-none [] name e i h = absurd (omega arith)
find-none (u ∷ us) name e zero h = ground arith
find-none (u ∷ us) name e (suc i) h = find-none us name (ground arith) i (omega arith)

pub none-find :
    (us : List User) (name : Bytes)
    → ((i : ℕ) → i < length us → ¬ Carries (user_at us i) name)
    → find_user_with_username us name ≡ none
unfolding find_user_with_username
none-find [] name h = refl
none-find (u ∷ us) name h =
    ground (arith, h 0 (omega arith), none-find us name (λ i l. h (suc i) (omega arith)))

-- The scan of `add_user` finds the name taken exactly when the search finds the name.
pub scan_free-taken :
    (us : List User) (name : Bytes) (k : ℕ) (e : Option ℕ)
    → scan_free us name k e ≡ none
    → find_user_with_username us name ≢ none
unfolding scan_free find_user_with_username
scan_free-taken [] name k e s = absurd (cc)
scan_free-taken (u ∷ us) name k e s =
    ground (arith, scan_free-taken us name (suc k) (if u.uid == 0 then some k else e))

pub scan_free-fresh :
    (us : List User) (name : Bytes) (k : ℕ) (e r : Option ℕ)
    → scan_free us name k e ≡ some r
    → find_user_with_username us name ≡ none
unfolding scan_free find_user_with_username
scan_free-fresh [] name k e r s = refl
scan_free-fresh (u ∷ us) name k e r s =
    ground (arith, scan_free-fresh us name (suc k) (if u.uid == 0 then some k else e) r)

user_at-sub_self : (u : User) (us : List User) (i : ℕ) → (user_at (u ∷ us) (i - i)).uid ≡ u.uid
user_at-sub_self u us i = let e : i - i ≡ 0 = omega arith in rw e

user_at-sub :
    (u : User) (us : List User) (k i : ℕ)
    → suc k ≤ i
    → user_at (u ∷ us) (i - k) ≡ user_at us (i - suc k)
user_at-sub u us k i h = let e : i - k ≡ suc (i - suc k) = omega arith in rw e

in_use :
    (u : User) (us : List User)
    → u.uid ≢ 0
    → ((i : ℕ) → i < length us → (user_at us i).uid ≢ 0)
    → (i : ℕ) → i < length (u ∷ us)
    → (user_at (u ∷ us) i).uid ≢ 0
in_use u us z h zero l = z
in_use u us z h (suc i) l = h i (omega arith)

-- The entry that the scan chooses is free, or is the one it was given.
pub scan_free-free :
    (us : List User) (name : Bytes) (k : ℕ) (e : Option ℕ) (i : ℕ)
    → scan_free us name k e ≡ some (some i)
    → (e ≡ some i) ⊎ ((k ≤ i) × (i < k + length us) × ((user_at us (i - k)).uid ≡ 0))
unfolding scan_free
scan_free-free [] name k e i s = inl (ground arith)
scan_free-free (u ∷ us) name k e i s =
    let e' : Option ℕ = if u.uid == 0 then some k else e in
    elim (scan_free-free us name (suc k) e' i (ground arith)) [
      | inl h ↦ elim (Bool-cases (u.uid == 0)) [
        | inl z ↦
            let ki : k ≡ i = ground arith in
            inr (omega arith, omega arith, rw ki (user_at-sub_self u us i ∙ ground arith))
        | inr nz ↦ inl (ground arith)
      ]
      | inr (a, b, c) ↦
          inr (omega arith, omega arith, ap (λ (v : User). v.uid) (user_at-sub u us k i a) ∙ c)
    ]

scan_free-none :
    (us : List User) (name : Bytes) (k : ℕ) (e : Option ℕ)
    → scan_free us name k e ≡ some none
    → (e ≡ none) × ((i : ℕ) → i < length us → (user_at us i).uid ≢ 0)
unfolding scan_free
scan_free-none [] name k e s = (ground arith, λ i h. absurd (omega arith))
scan_free-none (u ∷ us) name k e s =
    let ih = scan_free-none us name (suc k) (if u.uid == 0 then some k else e) (ground arith) in
    let nz : u.uid ≢ 0 = ground (arith, ih.0) in (ground (arith, ih.0), in_use u us nz ih.1)

-- With no entry chosen every entry is in use.
pub scan_free-full :
    (us : List User) (name : Bytes)
    → scan_free us name 0 none ≡ some none
    → (i : ℕ) → i < length us
    → (user_at us i).uid ≢ 0
scan_free-full us name s = (scan_free-none us name 0 none s).1

-- A new entry in a free place is found by its name, which nobody had.
pub find-set :
    (us : List User) (name : Bytes) (i : ℕ) (u : User)
    → i < length us
    → find_user_with_username us name ≡ none
    → Carries u name
    → find_user_with_username (set us i u) name ≡ some i
unfolding find_user_with_username
find-set [] name i u h f c = absurd (omega arith)
find-set (v ∷ us) name zero u h f c = ground arith
find-set (v ∷ us) name (suc i) u h f c = ground (arith, find-set us name i u)

-- It is in the way of no other name.
pub find-set_other :
    (us : List User) (name : Bytes) (i : ℕ) (u : User)
    → ¬ Carries (user_at us i) name
    → ¬ Carries u name
    → find_user_with_username (set us i u) name ≡ find_user_with_username us name
unfolding find_user_with_username
find-set_other [] name i u h c = refl
find-set_other (v ∷ us) name zero u h c = ground arith
find-set_other (v ∷ us) name (suc i) u h c = rw (find-set_other us name i u h c)

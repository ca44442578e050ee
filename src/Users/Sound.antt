-- ===== src/Users/Sound.antt =====
-- usermanage.c: what makes the table of users sound, and the changes that keep it so.
use mathlib.Core.Path.{subst}
use operating_systems_assign.Base.{
  Bool-cases, List, arith, get_or-set_ne, get_or-set_self, if◌then◌else◌, inl, inr, length,
  length-set, set, true, ℕ, ◌<◌, ◌==◌, ◌≡◌, ◌≢◌, ◌+◌, fun_ext, sym,
}
use operating_systems_assign.CString.{Bytes, view}
use operating_systems_assign.Users.{User, no_user, root_uid, same_name, user_at}
use operating_systems_assign.Users.Ops.{root_name}
use operating_systems_assign.Users.Table.{
  SameString-same_name, SameString-sym, SameString-trans, same_name-SameString, Carries,
}

abbrev pub Active : (ℕ → User) → ℕ → ℕ → Type 0
Active f n i = (i < n) × ((f i).uid ≢ 0)

-- No two users in use share a name or a uid, every uid is below `next`, and root stands first.
-- `f` is the table by index, and `n` its length.
pub record IsSound (f : ℕ → User) (n next : ℕ) : Type 0 where
  pub names :
      (i j : ℕ)
      → Active f n i
      → Active f n j
      → same_name (f i).username (view (f j).username) ≡ true
      → i ≡ j
  pub uids : (i j : ℕ) → Active f n i → Active f n j → (f i).uid ≡ (f j).uid → i ≡ j
  pub below : (i : ℕ) → Active f n i → (f i).uid < next
  pub root_first : (f 0).uid ≡ root_uid
  pub root_named : same_name (f 0).username root_name ≡ true

-- the table with the entry `i` set
abbrev pub replaced : (ℕ → User) → ℕ → User → ℕ → User
replaced f i u j = if i == j then u else f j

user_at-set :
    (us : List User) (i : ℕ) (u : User) (j : ℕ)
    → i < length us
    → user_at (set us i u) j ≡ replaced (user_at us) i u j
user_at-set us i u j h = elim (Bool-cases (i == j)) [
  | inl e ↦ rw e (
      let q : i ≡ j = ground arith in
      subst (λ k. user_at (set us i u) k ≡ u) q (get_or-set_self us i u no_user h))
  | inr ne ↦ rw ne (get_or-set_ne us i j u no_user (ground arith))
]

-- Two entries that carry one name carry each other's name.
pub Carries-same :
    (u v : User) (name : Bytes)
    → same_name u.username name ≡ true
    → same_name v.username name ≡ true
    → same_name u.username (view v.username) ≡ true
Carries-same u v name a b = SameString-same_name u.username (view v.username) (
    SameString-trans (view u.username) name (view v.username) 16
      (same_name-SameString u.username name a)
      (SameString-sym (view v.username) name 16 (same_name-SameString v.username name b)))

carries_left :
    (u v : User) (name : Bytes)
    → same_name u.username (view v.username) ≡ true
    → same_name u.username name ≡ true
    → same_name v.username name ≡ true
carries_left u v name a b = SameString-same_name v.username name (
    SameString-trans (view v.username) (view u.username) name 16
      (SameString-sym (view u.username) (view v.username) 16
        (same_name-SameString u.username (view v.username) a))
      (same_name-SameString u.username name b))

carries_right :
    (u v : User) (name : Bytes)
    → same_name v.username (view u.username) ≡ true
    → same_name u.username name ≡ true
    → same_name v.username name ≡ true
carries_right u v name a b = SameString-same_name v.username name (
    SameString-trans (view v.username) (view u.username) name 16
      (same_name-SameString v.username (view u.username) a)
      (same_name-SameString u.username name b))

module _ (f : ℕ → User) (n next i : ℕ) (u : User) (s : IsSound f n next) where
  replaced-clear : u.uid ≡ 0 → i ≢ 0 → IsSound (replaced f i u) n next
  replaced-clear z r = record {
    names = λ j k a b e. ground (arith, s.names j k);
    uids = λ j k a b e. ground (arith, s.uids j k);
    below = λ j a. ground (arith, s.below j);
    root_first = ground (arith, s.root_first);
    root_named = ground (arith, s.root_named);
  }

  replaced-add :
      (name : Bytes)
      → (f i).uid ≡ 0
      → u.uid ≡ next
      → same_name u.username name ≡ true
      → ((j : ℕ) → j < n → ¬ Carries (f j) name)
      → IsSound (replaced f i u) n (next + 1)
  replaced-add name free e c new = record {
    names = λ j k a b e'.
        ground
          (arith, s.names j k, new j, new k, carries_left u (f k) name, carries_right u (f j) name);
    uids = λ j k a b e'. ground (arith, s.uids j k, s.below j, s.below k);
    below = λ j a. ground (arith, s.below j);
    root_first = ground (arith, s.root_first);
    root_named = ground (arith, s.root_named, s.root_first);
  }

-- the table's own entries
abbrev pub IsSoundTable : List User → ℕ → Type 0
IsSoundTable us next = IsSound (user_at us) (length us) next

module _ (us : List User) (next i : ℕ) (u : User) (s : IsSoundTable us next)
    (h : i < length us) where
  set_of_replaced :
      (m : ℕ) → IsSound (replaced (user_at us) i u) (length us) m → IsSoundTable (set us i u) m
  set_of_replaced m r =
      rw (length-set us i u)
        (subst (λ f. IsSound f (length us) m) (sym (fun_ext (λ j. user_at-set us i u j h))) r)

  -- Taking an entry that is not root's out of use keeps the table sound.
  pub IsSound-clear : u.uid ≡ 0 → i ≢ 0 → IsSoundTable (set us i u) next
  IsSound-clear z r = set_of_replaced next (replaced-clear (user_at us) (length us) next i u s z r)

  -- So does putting a user with a new name and the uid `next` into a free entry.
  pub IsSound-add :
      (name : Bytes)
      → (user_at us i).uid ≡ 0
      → u.uid ≡ next
      → same_name u.username name ≡ true
      → ((j : ℕ) → j < length us → ¬ Carries (user_at us j) name)
      → IsSoundTable (set us i u) (next + 1)
  IsSound-add name free e c new =
      set_of_replaced (next + 1)
        (replaced-add (user_at us) (length us) next i u s name free e c new)

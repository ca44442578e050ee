-- ===== src/Tests/Accounts.antt =====
-- usermanage.c at a concrete table, with a file system in memory.
use mathlib.Core.Path.{subst}
use operating_systems_assign.Users.Restart.{init_usertable-Holds}
use operating_systems_assign.SleepLock.{initsleeplock}
use operating_systems_assign.Base.{
  List, [], arith, drop, false, length, ltb, none, refl, replicate, take, true, ℕ, ◌&&◌, ◌++◌, ◌∷◌,
  ◌≡◌, inl, inr, some, suc, sym, zero, ◌<◌, ◌∙◌, ◌⊎◌,
}
use operating_systems_assign.Base.Int.{pos}
use operating_systems_assign.Kernel.{done}
use operating_systems_assign.Kernel.Ends.{Ends, ends}
use operating_systems_assign.CString.{Bytes, strlen, strncmp, view}
use operating_systems_assign.Users.{
  FileOps, User, Users, blank, find_user_with_username, is_valid_passwd, is_valid_username, is_zero,
  same_name, table_bytes, uint_bytes, uint_of_bytes, user_at,
}
use operating_systems_assign.Users.Ops.{getuid, root_name, init_usertable}
use operating_systems_assign.Users.Layout.{IsUser, uint_round}
use operating_systems_assign.Users.Store.{FileLaws, IsTable, splice}
use operating_systems_assign.Users.Sound.{IsSoundTable, Active}
use operating_systems_assign.Users.Login.{Ready, free_lock}
use operating_systems_assign.Users.Session.{getuid-invalid_unlocks}

-- the contents of /passwd are the whole state
abbrev memory_ops : FileOps (List ℕ)
memory_ops = record {
  begin_op = λ f. done tt f;
  ilock = λ f. done tt f;
  iunlock = λ f. done tt f;
  end_op = λ f. done tt f;
  writei = λ src off f. done (pos (length src)) (splice f off src);
  readi = λ off n f. done (pos n, take n (drop off f)) f;
  namei = λ f. done (ltb 0 (length f)) f;
  create = λ f. done true f;
  set_mode = λ mode uid f. done tt f;
}

memory_laws : FileLaws memory_ops
memory_laws = record {
  content = λ f. f;
  Idle = λ f. Unit;
  InOp = λ f. Unit;
  Locked = λ f. Unit;
  begin_lem = λ f h. ends (tt, refl);
  ilock_lem = λ f h. ends (tt, refl);
  iunlock_lem = λ f h. ends (tt, refl);
  end_lem = λ f h. ends (tt, refl);
  namei_lem = λ f h l. ends (ground arith, tt, refl);
  writei_lem = λ f src off h a b. ends (refl, tt, refl);
  readi_lem = λ f off n h a. ends (refl, tt, refl);
}

abbrev blanks : List User
blanks = blank ∷ blank ∷ blank ∷ blank ∷ blank ∷ blank ∷ blank ∷ blank ∷ blank ∷ blank ∷ []

pub blank-IsUser : IsUser blank
blank-IsUser = record { username_16 = refl; passwd_16 = refl; uid_small = omega arith }

abbrev root_user : User
root_user = record {
  username = 114 ∷ 111 ∷ 111 ∷ 116 ∷ replicate 12 0;
  passwd = 48 ∷ 48 ∷ 48 ∷ 48 ∷ replicate 12 0;
  uid = 1;
}

pub root_user-IsUser : IsUser root_user
root_user-IsUser = record { username_16 = refl; passwd_16 = refl; uid_small = omega arith }

abbrev pub root_table : List User
root_table = root_user ∷ blank ∷ blank ∷ blank ∷ blank ∷ blank ∷ blank ∷ blank ∷ blank ∷ blank ∷ []

pub root_table-IsTable : IsTable root_table
root_table-IsTable =
    let b = blank-IsUser in
    record {
      ten = refl;
      each = (root_user-IsUser, (b, (b, (b, (b, (b, (b, (b, (b, (b, tt))))))))));
    }

abbrev system : Users (List ℕ)
system = record {
  utable = root_table;
  next_uid = 2;
  initialized = true;
  lock = free_lock;
  file = [];
}

system-Ready : Ready memory_ops memory_laws system
unfolding memory_laws
system-Ready = record { idle = tt; table = root_table-IsTable; unlocked = refl }

abbrev pub ann : Bytes
ann = view (97 ∷ 110 ∷ 110 ∷ 0 ∷ [])

pub ann-valid : is_valid_username 100 ann ≡ true
unfolding is_valid_username strlen
ann-valid = refl

pub ann-valid_passwd : is_valid_passwd 100 ann ≡ true
unfolding is_valid_passwd strlen
ann-valid_passwd = refl

pub ann-fresh : find_user_with_username root_table ann ≡ none
unfolding find_user_with_username same_name is_zero strncmp
ann-fresh = refl

blank_at : (n i : ℕ) → (user_at (replicate n blank) i).uid ≡ 0
blank_at zero i = refl
blank_at (suc n) zero = refl
blank_at (suc n) (suc i) = blank_at n i

only_root : (i : ℕ) → Active (user_at root_table) 10 i → i ≡ 0
only_root zero h = refl
only_root (suc i) h = absurd (h.1 (blank_at 9 i))

root_named_lem : same_name root_user.username root_name ≡ true
unfolding same_name is_zero strncmp
root_named_lem = refl

pub root_table-IsSound : IsSoundTable root_table 2
root_table-IsSound = record {
  names = λ i j a b e. only_root i a ∙ sym (only_root j b);
  uids = λ i j a b e. only_root i a ∙ sym (only_root j b);
  below = λ i a. subst (λ k. (user_at root_table k).uid < 2) (sym (only_root i a)) (omega arith);
  root_first = refl;
  root_named = root_named_lem;
}

uint_round_example : uint_of_bytes (uint_bytes 70000) ≡ 70000
uint_round_example = uint_round 70000 (omega arith)

abbrev empty_name : Bytes
empty_name = view []

nothing-valid : (is_valid_username 100 empty_name && is_valid_passwd 100 ann) ≡ false
unfolding is_valid_username strlen
nothing-valid = refl

getuid-invalid_unlocks_example :
    getuid memory_ops 3 100 empty_name ann system ≡ done 0 (record system { lock = free_lock })
getuid-invalid_unlocks_example =
    getuid-invalid_unlocks memory_ops 3 100 system empty_name ann nothing-valid

-- the same with ann, who has the uid 2
abbrev ann_user : User
ann_user = record {
  username = 97 ∷ 110 ∷ 110 ∷ replicate 13 0;
  passwd = 97 ∷ 110 ∷ 110 ∷ replicate 13 0;
  uid = 2;
}

abbrev pub ann_table : List User
ann_table =
    root_user ∷ ann_user ∷ blank ∷ blank ∷ blank ∷ blank ∷ blank ∷ blank ∷ blank ∷ blank ∷ []

pub ann_user-IsUser : IsUser ann_user
ann_user-IsUser = record { username_16 = refl; passwd_16 = refl; uid_small = omega arith }

pub ann-found : find_user_with_username ann_table ann ≡ some 1
unfolding find_user_with_username same_name is_zero strncmp
ann-found = refl

pub ann-not_root : is_zero (strncmp root_name ann 16) ≡ false
unfolding is_zero strncmp
ann-not_root = refl

two_users : (i : ℕ) → Active (user_at ann_table) 10 i → (i ≡ 0) ⊎ (i ≡ 1)
two_users zero h = inl refl
two_users (suc zero) h = inr refl
two_users (suc (suc i)) h = absurd (h.1 (blank_at 8 i))

-- the two users have two names
apart :
    (i j : ℕ)
    → (i ≡ 0) ⊎ (i ≡ 1)
    → (j ≡ 0) ⊎ (j ≡ 1)
    → same_name (user_at ann_table i).username (view (user_at ann_table j).username) ≡ true
    → i ≡ j
unfolding same_name is_zero strncmp
apart zero zero a b e = refl
apart zero (suc zero) a b e = absurd (ground arith)
apart (suc zero) zero a b e = absurd (ground arith)
apart (suc zero) (suc zero) a b e = refl
apart (suc (suc i)) j a b e = absurd (ground arith)
apart zero (suc (suc j)) a b e = absurd (ground arith)
apart (suc zero) (suc (suc j)) a b e = absurd (ground arith)

apart_uids :
    (i j : ℕ)
    → (i ≡ 0) ⊎ (i ≡ 1)
    → (j ≡ 0) ⊎ (j ≡ 1)
    → (user_at ann_table i).uid ≡ (user_at ann_table j).uid
    → i ≡ j
apart_uids zero zero a b e = refl
apart_uids zero (suc zero) a b e = absurd (ground arith)
apart_uids (suc zero) zero a b e = absurd (ground arith)
apart_uids (suc zero) (suc zero) a b e = refl
apart_uids (suc (suc i)) j a b e = absurd (ground arith)
apart_uids zero (suc (suc j)) a b e = absurd (ground arith)
apart_uids (suc zero) (suc (suc j)) a b e = absurd (ground arith)

below_three : (i : ℕ) → (i ≡ 0) ⊎ (i ≡ 1) → (user_at ann_table i).uid < 3
below_three zero a = omega arith
below_three (suc zero) a = omega arith
below_three (suc (suc i)) a = absurd (ground arith)

pub with_ann-IsSound : IsSoundTable ann_table 3
with_ann-IsSound = record {
  names = λ i j a b e. apart i j (two_users i a) (two_users j b) e;
  uids = λ i j a b e. apart_uids i j (two_users i a) (two_users j b) e;
  below = λ i a. below_three i (two_users i a);
  root_first = refl;
  root_named = root_named_lem;
}

-- the machine that starts with a /passwd in which the table stands
abbrev started : Users (List ℕ)
started = record {
  utable = blanks;
  next_uid = 0;
  initialized = false;
  lock = free_lock;
  file = uint_bytes 2 ++ (table_bytes root_table ++ []);
}

init_usertable-Holds_example :
    Ends
      (λ r t.
        (r ≡ pos 0)
        × (t.utable ≡ root_table)
        × (t.next_uid ≡ 2)
        × (t.lock ≡ initsleeplock)
        × (t.initialized ≡ true)
        × Unit
        × (t.file ≡ started.file))
      (init_usertable memory_ops started)
unfolding memory_laws
init_usertable-Holds_example =
    init_usertable-Holds memory_ops memory_laws started 2 root_table refl tt (omega arith)
      root_table-IsTable ([], refl)

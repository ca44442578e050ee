-- ===== src/Users.antt =====
-- usermanage.c: the table of users, its lock and its file /passwd. `F` is the state of the file
-- system below, and `FileOps` the routines of fs.c and log.c that the table is stored through.
-- `pid` is the calling process; `limit` is how far a string argument's NUL is looked for.
pub mod Ops
pub mod Layout
pub mod Store
pub mod Volume
pub mod Restart
pub mod Table
pub mod Sound
pub mod Login
pub mod Session
use operating_systems_assign.Base.{
  Bool, List, Option, [], drop, false, get_or, if◌then◌else◌, leb, ltb, none, not, replicate, some,
  suc, take, true, zero, ℕ, ◌%◌, ◌&&◌, ◌*◌, ◌++◌, ◌+◌, ◌/◌, ◌==◌, ◌||◌, ◌∷◌,
}
use operating_systems_assign.Base.Int.{negsuc, pos, ℤ}
use operating_systems_assign.Kernel.{Cmd, done, panics, sleeps, Run}
use operating_systems_assign.SleepLock.{SleepLock}
use operating_systems_assign.CString.{Bytes, array, memset, strlen, strncmp, strncpy, view}

abbrev pub username_maxlen : ℕ
username_maxlen = 16

abbrev pub user_pw_maxlen : ℕ
user_pw_maxlen = 16

abbrev pub nuser : ℕ
nuser = 10

abbrev pub root_uid : ℕ
root_uid = 1

pub record User : Type 0 where
  pub username : List ℕ
  pub passwd : List ℕ
  pub uid : ℕ

-- A `uint` in memory, low byte first.
unfoldable pub uint_bytes : ℕ → List ℕ
uint_bytes x = x % 256 ∷ (x / 256 % 256) ∷ (x / 256 / 256 % 256) ∷ (x / 256 / 256 / 256 % 256) ∷ []

pub uint_of_bytes : List ℕ → ℕ
uint_of_bytes b = get_or b 0 0 + 256 * (get_or b 1 0 + 256 * (get_or b 2 0 + 256 * get_or b 3 0))

-- the 36 bytes of a `struct User`, which has no padding
unfoldable pub user_bytes : User → List ℕ
user_bytes u = u.username ++ (u.passwd ++ uint_bytes u.uid)

unfoldable pub table_bytes : List User → List ℕ
table_bytes [] = []
table_bytes (u ∷ us) = user_bytes u ++ table_bytes us

abbrev pub user_size : ℕ
user_size = 36

pub user_of_bytes : List ℕ → User
user_of_bytes b = record {
  username = take 16 b;
  passwd = take 16 (drop 16 b);
  uid = uint_of_bytes (drop 16 (drop 16 b));
}

-- `n` users read from memory
pub table_of_bytes : ℕ → List ℕ → List User
table_of_bytes zero b = []
table_of_bytes (suc n) b = user_of_bytes b ∷ table_of_bytes n (drop user_size b)

-- `writei` and `readi` work on the inode of /passwd; `readi` gives the count and the bytes.
pub record FileOps (F : Type 0) : Type 0 where
  pub begin_op : Cmd F (Unit {0})
  pub ilock : Cmd F (Unit {0})
  pub iunlock : Cmd F (Unit {0})
  pub end_op : Cmd F (Unit {0})
  pub writei : List ℕ → ℕ → Cmd F ℤ
  pub readi : ℕ → ℕ → Cmd F (ℤ × List ℕ)
  -- namei("/passwd") != 0
  pub namei : Cmd F Bool
  -- create("/passwd", T_FILE, 0, 0) != 0
  pub create : Cmd F Bool
  -- ip->perm = …; ip->owner = …; iupdate(ip);
  pub set_mode : ℕ → ℕ → Cmd F (Unit {0})

pub record Users (F : Type 0) : Type 0 where
  pub utable : List User
  pub next_uid : ℕ
  pub initialized : Bool
  pub lock : SleepLock
  pub file : F

unfoldable pub is_zero : ℤ → Bool
is_zero (pos zero) = true
is_zero (pos (suc n)) = false
is_zero (negsuc n) = false

-- strncmp(xs, name, 16) == 0, for an array field `xs`
unfoldable pub same_name : List ℕ → Bytes → Bool
unfolding is_zero
same_name xs name = is_zero (strncmp (view xs) name username_maxlen)

unfoldable pub is_valid_username : ℕ → Bytes → Bool
is_valid_username limit name = elim (strlen limit name) [
  | none ↦ false
  | some l ↦ leb 2 l && ltb l username_maxlen
]

unfoldable pub is_valid_passwd : ℕ → Bytes → Bool
is_valid_passwd limit passwd = elim (strlen limit passwd) [
  | none ↦ false
  | some l ↦ leb 2 l && ltb l user_pw_maxlen
]

-- the index of the user, in place of the pointer
unfoldable pub find_user_with_username : List User → Bytes → Option ℕ
unfolding same_name
find_user_with_username [] name = none
find_user_with_username (u ∷ us) name =
    let later = find_user_with_username us name in
    if u.uid == 0 || not (same_name u.username name)
    then (elim later [ none ↦ none | some i ↦ some (suc i) ])
    else some 0

unfoldable pub find_user_with_uid : List User → ℕ → Option ℕ
find_user_with_uid [] uid = none
find_user_with_uid (u ∷ us) uid =
    let later = find_user_with_uid us uid in
    if u.uid == 0 || not (u.uid == uid)
    then (elim later [ none ↦ none | some i ↦ some (suc i) ])
    else some 0

-- The loop of `add_user`, from index `i` with the free entry seen last: `none` is a name taken.
unfoldable pub scan_free : List User → Bytes → ℕ → Option ℕ → Option (Option ℕ)
unfolding same_name
scan_free [] name i empty = some empty
scan_free (u ∷ us) name i empty =
    let later = scan_free us name (suc i) (if u.uid == 0 then some i else empty) in
    if not (u.uid == 0) && same_name u.username name then none else later

abbrev pub blank : User
blank = record { username = replicate 16 0; passwd = replicate 16 0; uid = 0 }

abbrev pub no_user : User
no_user = blank

abbrev pub user_at : List User → ℕ → User
user_at us i = get_or us i no_user

-- `strncpy` into an array field
unfoldable pub copy_field : List ℕ → Bytes → List ℕ
copy_field xs t = array 16 (strncpy (view xs) t 16)

-- memset(field, '\0', 16)
unfoldable pub clear_field : List ℕ → List ℕ
clear_field xs = array 16 (memset 0 (view xs) 0 16)

module _ {F A : Type 0} where
  abbrev pub with_file : Users F → Run F A → Run (Users F) A
  with_file s (done a f) = done a (record s { file = f })
  with_file s sleeps = sleeps
  with_file s panics = panics

  abbrev pub on_file : Cmd F A → Cmd (Users F) A
  on_file m s = with_file s (m s.file)

  abbrev pub with_lock : Users F → Run SleepLock A → Run (Users F) A
  with_lock s (done a l) = done a (record s { lock = l })
  with_lock s sleeps = sleeps
  with_lock s panics = panics

  abbrev pub on_lock : Cmd SleepLock A → Cmd (Users F) A
  on_lock m s = with_lock s (m s.lock)

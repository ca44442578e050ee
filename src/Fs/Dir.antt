-- ===== src/Fs/Dir.antt =====
-- fs.c: directories: `namecmp`, `dirlookup` and `dirlink`. A directory is a file of 16-byte entries, an
-- inode number in two bytes and a name in 14.
pub mod Lookup
pub mod Link
use operating_systems_assign.Base.{
  Bool, List, Option, drop, false, get_or, if◌then◌else◌, ltb, none, not, some, suc, zero, ℕ, ◌%◌,
  ◌*◌, ◌+◌, ◌/◌, ◌==◌, ◌∷◌,
}
use operating_systems_assign.Base.Int.{negsuc, pos, ℤ}
use operating_systems_assign.CString.{Bytes, array, strncmp, strncpy, view}
use operating_systems_assign.PathName.{dirsiz}
use operating_systems_assign.Kernel.{Cmd, and_then, done, panics}
use operating_systems_assign.Fs.{Super}
use operating_systems_assign.Fs.File.{Devsw, View, readi, t_dir, writei}
use operating_systems_assign.Fs.Inode.{Icache, iget, iput, on_view, slot_at, view_of}

unfoldable pub namecmp : Bytes → Bytes → ℤ
namecmp s t = strncmp s t dirsiz

-- the comparisons of an `int` result with a number
abbrev pub is_int : ℤ → ℕ → Bool
is_int (pos m) n = m == n
is_int (negsuc m) n = false

-- de.inum and de.name
abbrev pub de_inum : List ℕ → ℕ
de_inum de = get_or de 0 0 + 256 * get_or de 1 0

abbrev pub de_name : List ℕ → Bytes
de_name de = view (drop 2 de)

-- the loop of `dirlookup` from the offset `off` on, for at most `m` rounds: the number of the inode
-- and the offset of its entry
unfoldable pub find_entry : Super → Devsw → Bytes → ℕ → ℕ → Cmd View (Option (ℕ × ℕ))
find_entry sb dev name off zero s = done none s
find_entry sb dev name off (suc m) s =
    let later = find_entry sb dev name (off + 16) m in
    if ltb off s.ip.size
    then and_then (readi sb dev off 16 s) (λ (r, de) t.
      if not (is_int r 16)
      then panics
      else if de_inum de == 0
      then later t
      else if is_int (namecmp name (de_name de)) 0
      then done (some (de_inum de, off)) t
      else later t)
    else done none s

unfoldable pub find_in_dir : Super → Devsw → Bytes → Cmd View (Option (ℕ × ℕ))
find_in_dir sb dev name s =
    if not (s.ip.type == t_dir) then panics else find_entry sb dev name 0 (suc s.ip.size) s

-- the entry of the cache for the inode that was found, and the offset
abbrev get_found : ℕ → Option (ℕ × ℕ) → Cmd Icache (Option (ℕ × ℕ))
get_found dev none s = done none s
get_found dev (some (inum, off)) s = and_then (iget dev inum s) (λ i t. done (some (i, off)) t)

unfoldable pub dirlookup : Super → Devsw → ℕ → Bytes → Cmd Icache (Option (ℕ × ℕ))
dirlookup sb dev dp name s =
    and_then (on_view dp s (find_in_dir sb dev name (view_of dp s)))
      (λ found t. get_found (slot_at t dp).dev found t)

-- the loop of `dirlink` for an empty entry from the offset `off` on, for at most `m` rounds: where it ends
unfoldable pub find_free : Super → Devsw → ℕ → ℕ → Cmd View ℕ
find_free sb dev off zero s = done off s
find_free sb dev off (suc m) s =
    let later = find_free sb dev (off + 16) m in
    if ltb off s.ip.size
    then and_then (readi sb dev off 16 s) (λ (r, de) t.
      if not (is_int r 16) then panics else if de_inum de == 0 then done off t else later t)
    else done off s

-- the entry that `dirlink` writes: `strncpy` sets each byte of the name
abbrev pub dirent : Bytes → ℕ → List ℕ
dirent name inum = inum % 256 ∷ inum / 256 % 256 ∷ array dirsiz (strncpy (λ _. 0) name dirsiz)

-- `dirlink` of a name that is not in the directory
unfoldable pub add_entry : Super → Devsw → Bytes → ℕ → Cmd View ℤ
add_entry sb dev name inum s = and_then (find_free sb dev 0 (suc s.ip.size) s) (λ off t.
    and_then (writei sb dev (dirent name inum) off t)
      (λ r u. if not (is_int r 16) then panics else done (pos 0) u))

unfoldable pub dirlink : ℕ → Super → Devsw → ℕ → Bytes → ℕ → Cmd Icache ℤ
dirlink pid sb dev dp name inum s = and_then (dirlookup sb dev dp name s) (λ found t. link found t)
  where
    link : Option (ℕ × ℕ) → Cmd Icache ℤ
    link (some (i, off)) t = and_then (iput pid sb i t) (λ _ u. done (negsuc 0) u)
    link none t = on_view dp t (add_entry sb dev name inum (view_of dp t))

-- ===== src/Fs/Path.antt =====
-- fs.c: `ialloc`, and path lookup: `namex`, `namei` and `nameiparent`. The entry of the cache for the
-- root or the current directory is where a lookup starts.
pub mod Fuel
pub mod Fresh
use operating_systems_assign.Base.{
  Bool, List, Option, [], false, get_or, if◌then◌else◌, length, ltb, none, not, some, suc, true,
  zero, ℕ, ◌&&◌, ◌==◌, ◌∷◌,
}
use operating_systems_assign.CString.{view}
use operating_systems_assign.Kernel.{Cmd, Run, and_then, done, panics}
use operating_systems_assign.PathName.{skipelem}
use operating_systems_assign.Permission.{has_execute_permission}
use operating_systems_assign.Fs.{Disk, Super, put_block}
use operating_systems_assign.Fs.File.{Devsw, Inode, iblock, inode_bytes, t_dir}
use operating_systems_assign.Fs.Inode.{
  Icache, idup, iget, ilock, iput, iunlock, iunlockput, read_dinode, slot_at,
}
use operating_systems_assign.Fs.Dir.{dirlookup}

abbrev pub rootdev : ℕ
rootdev = 1

abbrev pub rootino : ℕ
rootino = 1

-- the inode of `ialloc` on the disk: zeros but for the type
abbrev pub fresh_inode : ℕ → ℕ → Inode
fresh_inode inum type = record {
  inum = inum;
  perm = 0;
  type = type;
  major = 0;
  minor = 0;
  nlink = 0;
  size = 0;
  addrs = λ _. 0;
  owner = 0;
}

-- the loop of `ialloc` from the inode `inum` on, for at most `m` rounds: the first free one
unfoldable pub free_dinode : Super → Disk → ℕ → ℕ → Option ℕ
free_dinode sb d inum zero = none
free_dinode sb d inum (suc m) =
    let later = free_dinode sb d (suc inum) m in
    if ltb inum sb.ninodes
    then (if (read_dinode inum (d (iblock sb inum))).type == 0 then some inum else later)
    else none

-- what `ialloc` does with the outcome of its loop
abbrev pub take_dinode : Super → ℕ → ℕ → Option ℕ → Cmd Icache ℕ
take_dinode sb dev type none s = panics
take_dinode sb dev type (some inum) s =
    let b = iblock sb inum in
    iget dev inum
      (record s { disk = put_block s.disk b (inode_bytes (fresh_inode inum type) (s.disk b)) })

unfoldable pub ialloc : Super → ℕ → ℕ → Cmd Icache ℕ
ialloc sb dev type s = take_dinode sb dev type (free_dinode sb s.disk 1 sb.ninodes) s

-- has_execute_permission(ip) of the process with the user `uid`
abbrev pub may_search : ℕ → Inode → Bool
may_search uid ip =
    has_execute_permission uid (record { type = ip.type; owner = ip.owner; perm = ip.perm })

-- a lookup that fails once the inode is locked
abbrev pub give_up : ℕ → Super → ℕ → Cmd Icache (Option (ℕ × List ℕ))
give_up pid sb ip s = and_then (iunlockput pid sb ip s) (λ _ t. done none t)

abbrev pub is_nil : List ℕ → Bool
is_nil [] = true
is_nil (c ∷ path) = false

module _ (pid uid : ℕ) (sb : Super) (dev : Devsw) (parent : Bool) where
  -- The rest of a round of the loop, with the inode locked; `walk` is the loop from the next inode on.
  abbrev pub step :
      (ℕ → Cmd Icache (Option (ℕ × List ℕ)))
      → ℕ
      → List ℕ
      → List ℕ
      → Cmd Icache (Option (ℕ × List ℕ))
  step walk ip name path s =
      let inode = (slot_at s ip).ip in
      if not (inode.type == t_dir)
      then give_up pid sb ip s
      else if not (may_search uid inode)
      then give_up pid sb ip s
      else if parent && is_nil path
      then and_then (iunlock pid (some ip) s) (λ _ t. done (some (ip, name)) t)
      else and_then (dirlookup sb dev ip (view name) s) (λ found t. next found t)
    where
      next : Option (ℕ × ℕ) → Cmd Icache (Option (ℕ × List ℕ))
      next none t = give_up pid sb ip t
      next (some (i, off)) t = and_then (iunlockput pid sb ip t) (λ _ u. walk i u)

  -- what `namex` returns behind its loop
  abbrev pub walk_end : ℕ → List ℕ → Cmd Icache (Option (ℕ × List ℕ))
  walk_end ip name s =
      if parent then and_then (iput pid sb ip s) (λ _ t. done none t) else done (some (ip, name)) s

  -- A round of the loop at the inode `ip`, for what `skipelem` gave; `walk` is the loop from a name, a
  -- path and an inode on, and `name` the last element before.
  abbrev pub walk_round :
      (List ℕ → List ℕ → ℕ → Cmd Icache (Option (ℕ × List ℕ)))
      → ℕ
      → List ℕ
      → Option (List ℕ × List ℕ)
      → Cmd Icache (Option (ℕ × List ℕ))
  walk_round walk ip name none s = walk_end ip name s
  walk_round walk ip name (some (element, later)) s =
      and_then (ilock pid sb (some ip) s) (λ _ t. step (walk element later) ip element later t)

  -- the loop of `namex`, for at most `m` elements of the path
  unfoldable pub walk_path : ℕ → List ℕ → List ℕ → ℕ → Cmd Icache (Option (ℕ × List ℕ))
  walk_path zero name path ip s = done none s
  walk_path (suc m) name path ip s = walk_round (walk_path m) ip name (skipelem path) s

  -- `cwd` is the entry of the current directory
  unfoldable pub namex : ℕ → List ℕ → Cmd Icache (Option (ℕ × List ℕ))
  namex cwd path s =
      let loop = walk_path (suc (length path)) [] path in
      and_then (if get_or path 0 0 == 47 then iget rootdev rootino s else idup cwd s)
        (λ ip t. loop ip t)

unfoldable pub namei : ℕ → ℕ → Super → Devsw → ℕ → List ℕ → Cmd Icache (Option (ℕ × List ℕ))
namei pid uid sb dev = namex pid uid sb dev false

unfoldable pub nameiparent : ℕ → ℕ → Super → Devsw → ℕ → List ℕ → Cmd Icache (Option (ℕ × List ℕ))
nameiparent pid uid sb dev = namex pid uid sb dev true

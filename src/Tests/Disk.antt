-- ===== src/Tests/Disk.antt =====
-- The file system at a small disk: four blocks and the bitmap, then a file of one block.
use operating_systems_assign.CString.{strncmp, view, Bytes}
use operating_systems_assign.Fs.File.Roundtrip.{readi-writei}
use operating_systems_assign.Fs.File.Contents.{Written, writei-Written}
use operating_systems_assign.Fs.File.Trunc.{Truncated, itrunc-Truncated}
use operating_systems_assign.Base.Int.{pos}
use operating_systems_assign.Fs.Alloc.{balloc}
use operating_systems_assign.Kernel.{done}
use operating_systems_assign.Fs.Inode.Dinode.{IsInode, SameInode, read_dinode-inode_bytes}
use operating_systems_assign.Fs.Inode.{Icache, iget, no_slot, read_dinode}
use operating_systems_assign.Fs.Inode.Cache.{Distinct, GetOutcome, iget-GetOutcome, is_for}
use operating_systems_assign.Kernel.Ends.{Ends}
use operating_systems_assign.Base.{
  arith, if◌then◌else◌, inl, inr, none, refl, suc, sym, zero, ℕ, ◌==◌, ◌∙◌, ◌≡◌, ◌≢◌, [], ap, true,
  ◌∷◌, false, some, ◌≤◌,
}
use operating_systems_assign.Fs.{Disk, Super}
use operating_systems_assign.Fs.Bits.{bit_of}
use operating_systems_assign.Fs.Alloc.Sound.{Reserved, in_use, Outcome, balloc-Outcome}
use operating_systems_assign.Fs.Alloc.Room.{free_below, free_blocks}
use operating_systems_assign.Fs.File.{
  Devsw, Inode, View, inode_bytes, itrunc, readi, writei, bmap, read_from, slot_addr,
}
use operating_systems_assign.Fs.File.Mapping.{
  IsData, Sound, addr_of, addr_of-direct, addr_of-none, if_at, if_off, is_direct, same_or_not,
  byte_at,
}
use operating_systems_assign.Fs.File.Read.{IsCovered, readi-contents}
use operating_systems_assign.Fs.Dir.{add_entry, find_entry, find_in_dir, namecmp}
use operating_systems_assign.Fs.Dir.Lookup.{IsDir, Lookup, find_in_dir-Lookup}
use operating_systems_assign.Fs.Dir.Link.{find_in_dir-add_entry}
use operating_systems_assign.Fs.Path.{ialloc, walk_path}
use operating_systems_assign.Fs.Path.Fresh.{FreshOutcome, ialloc-FreshOutcome}
use operating_systems_assign.Fs.Path.Fuel.{walk_path-enough}

abbrev pub small_super : Super
small_super = record {
  size = 20;
  nblocks = 16;
  ninodes = 8;
  nlog = 1;
  logstart = 1;
  inodestart = 2;
  bmapstart = 3;
}

-- the bitmap in the block 3, with the blocks 0 to 3 and 5 in use; the bytes `c` in the block 5
abbrev disk_with : Bytes → Disk
disk_with c b i = if b == 3 then (if i == 0 then 47 else 0) else if b == 5 then c i else 0

-- the inode 3, with the block 5
abbrev inode_with : ℕ → ℕ → Inode
inode_with kind n = record {
  inum = 3;
  perm = 63;
  type = kind;
  major = 0;
  minor = 0;
  nlink = 1;
  size = n;
  addrs = λ j. if j == 0 then 5 else 0;
  owner = 0;
}

abbrev view_with : Bytes → ℕ → ℕ → View
view_with c kind n = record { disk = disk_with c; ip = inode_with kind n }

-- a file of three bytes, "hey"
abbrev small_disk : Disk
small_disk =
    disk_with (λ i. if i == 0 then 104 else if i == 1 then 101 else if i == 2 then 121 else 0)

abbrev small_file : Inode
small_file = inode_with 2 3

abbrev pub small_view : View
small_view = record { disk = small_disk; ip = small_file }

-- a directory of two entries, the first of them free: "ab" for the inode 7
abbrev dir_view : View
dir_view =
    view_with (λ i. if i == 16 then 7 else if i == 18 then 97 else if i == 19 then 98 else 0) 1 32

abbrev pub no_devices : Devsw
no_devices = record { read = λ _. none; write = λ _. none }

module _ (c : Bytes) (kind n : ℕ) where
  small-Reserved : Reserved small_super (disk_with c)
  unfolding in_use bit_of
  small-Reserved zero l = refl
  small-Reserved (suc zero) l = refl
  small-Reserved (suc (suc zero)) l = refl
  small-Reserved (suc (suc (suc zero))) l = refl
  small-Reserved (suc (suc (suc (suc x)))) l = absurd (omega arith)

  small_addr : (bn : ℕ) → addr_of (view_with c kind n) bn ≡ (if bn == 0 then 5 else 0)
  small_addr bn = elim (is_direct bn) [
    | inl l ↦ addr_of-direct (view_with c kind n) bn l
    | inr l ↦ addr_of-none (view_with c kind n) bn l refl ∙ sym (if_off bn 0 5 0 (omega arith))
  ]

  small_first :
      (bn : ℕ)
      → addr_of (view_with c kind n) bn ≢ 0
      → (bn ≡ 0) × (addr_of (view_with c kind n) bn ≡ 5)
  small_first bn ne = elim (same_or_not bn 0) [
    | inl z ↦ (z, small_addr bn ∙ if_at bn 0 5 0 z)
    | inr o ↦ absurd (ne (small_addr bn ∙ if_off bn 0 5 0 o))
  ]

  small-IsData : IsData small_super (disk_with c) 5
  unfolding in_use bit_of
  small-IsData = record { below = omega arith; behind = omega arith; held = refl }

  view-Sound : Sound small_super (view_with c kind n)
  view-Sound = record {
    reserved = small-Reserved;
    file = record {
      blocks = λ bn l ne. simp ((small_first bn ne).1) small-IsData;
      indirect = λ ne. absurd (ne refl);
      once = λ bn bm l m ne e. (small_first bn ne).0 ∙ sym (small_first bm (λ z. ne (e ∙ z))).0;
      aside = λ bn l ne e. ne e;
    };
  }

  five : (n : ℕ) → n ≡ 0 → n ≡ 5 → ⊥
  five n a b = omega arith

  view-IsCovered : n ≤ 512 → IsCovered (view_with c kind n)
  view-IsCovered h = (
    omega arith,
    λ off l z. five _ z (ap (addr_of (view_with c kind n)) (omega arith) ∙ small_addr 0),
  )

small-Reserved_file : Reserved small_super small_disk
small-Reserved_file = small-Reserved _ 2 3

pub small_file-Sound : Sound small_super small_view
small_file-Sound = view-Sound _ 2 3

pub small_file-IsCovered : IsCovered small_view
small_file-IsCovered = view-IsCovered _ 2 3 (omega arith)

dir_view-IsDir : IsDir dir_view
dir_view-IsDir = record {
  type = refl;
  covered = view-IsCovered _ 1 32 (omega arith);
  whole = omega arith;
}

dir_room : free_blocks small_super dir_view.disk ≡ 15
unfolding free_below in_use bit_of
dir_room = refl

small_room : free_blocks small_super small_disk ≡ 15
unfolding free_below in_use bit_of
small_room = refl

readi-contents_example :
    readi small_super no_devices 1 5 small_view ≡ done (pos 2, 101 ∷ 121 ∷ []) small_view
unfolding byte_at addr_of
readi-contents_example =
    readi-contents small_super no_devices small_view 1 5 (λ e. absurd (omega arith))
      small_file-IsCovered (omega arith) (omega arith)

readi-writei_example :
    Ends
      (λ r t. (r ≡ pos 2) × (readi small_super no_devices 3 2 t ≡ done (pos 2, 33 ∷ 10 ∷ []) t))
      (writei small_super no_devices (33 ∷ 10 ∷ []) 3 small_view)
readi-writei_example =
    readi-writei small_super no_devices (33 ∷ 10 ∷ []) 3 small_view (omega arith) (omega arith)
      small_file-Sound small_file-IsCovered (λ e. absurd (omega arith)) (omega arith) (omega arith)
      (omega arith) (inl (omega (arith, small_room)))

writei-Written_example :
    Ends
      (Written small_super small_view (33 ∷ 10 ∷ []) 2)
      (writei small_super no_devices (33 ∷ 10 ∷ []) 2 small_view)
writei-Written_example =
    writei-Written small_super no_devices (33 ∷ 10 ∷ []) 2 small_view (omega arith) (omega arith)
      small_file-Sound small_file-IsCovered (λ e. absurd (omega arith)) (omega arith) (omega arith)
      (omega arith) (inl (omega (arith, small_room)))

itrunc-Truncated_example :
    Ends (λ _ t. Truncated small_super small_view t) (itrunc small_super small_view)
itrunc-Truncated_example = itrunc-Truncated small_super small_view small_file-Sound (omega arith)

balloc-Outcome_example : Outcome small_super small_disk 0 (balloc small_super small_disk)
balloc-Outcome_example = balloc-Outcome small_super small_disk small-Reserved_file

small_file-IsInode : IsInode small_file
small_file-IsInode = record {
  perm = omega arith;
  type = omega arith;
  major = omega arith;
  minor = omega arith;
  nlink = omega arith;
  size = omega arith;
  owner = omega arith;
  addrs = λ j l. ground arith;
}

read_dinode-inode_bytes_example :
    SameInode (read_dinode 3 (inode_bytes small_file (λ _. 0))) small_file
read_dinode-inode_bytes_example = read_dinode-inode_bytes small_file (λ _. 0) small_file-IsInode

-- a cache of two entries, the first in use
abbrev small_cache : Icache
small_cache = record {
  disk = small_disk;
  inodes = record no_slot { dev = 1; ref = 2; valid = true; ip = small_file } ∷ no_slot ∷ [];
}

free_slot : (dev inum : ℕ) → is_for dev inum no_slot ≡ true → ⊥
free_slot dev inum q =
    let f : is_for dev inum no_slot ≡ false = refl in absurd (ground (arith, sym q ∙ f))

small_cache-Distinct : Distinct small_cache
small_cache-Distinct dev inum zero zero a b p q = refl
small_cache-Distinct dev inum zero (suc zero) a b p q = absurd (free_slot dev inum q)
small_cache-Distinct dev inum (suc zero) j a b p q = absurd (free_slot dev inum p)
small_cache-Distinct dev inum zero (suc (suc j)) a b p q = absurd (omega arith)
small_cache-Distinct dev inum (suc (suc i)) j a b p q = absurd (omega arith)

iget-GetOutcome_example : GetOutcome 1 4 small_cache (iget 1 4 small_cache)
iget-GetOutcome_example = iget-GetOutcome 1 4 small_cache small_cache-Distinct

find_in_dir-Lookup_example :
    Lookup dir_view
      (view (97 ∷ 98 ∷ []))
      0
      (find_in_dir small_super no_devices (view (97 ∷ 98 ∷ [])) dir_view)
find_in_dir-Lookup_example =
    find_in_dir-Lookup small_super no_devices (view (97 ∷ 98 ∷ [])) dir_view dir_view-IsDir

-- the name "c"
abbrev new_name : Bytes
new_name = view (99 ∷ [])

no_new_name : find_in_dir small_super no_devices new_name dir_view ≡ done none dir_view
unfolding find_in_dir find_entry readi read_from bmap slot_addr namecmp strncmp
no_new_name = refl

find_in_dir-add_entry_example :
    Ends
      (λ r t.
        (r ≡ pos 0)
        × ((off : ℕ) × (find_in_dir small_super no_devices new_name t ≡ done (some (9, off)) t)))
      (add_entry small_super no_devices new_name 9 dir_view)
find_in_dir-add_entry_example =
    find_in_dir-add_entry small_super no_devices new_name 9 dir_view (omega arith) (omega arith)
      (view-Sound _ 1 32) dir_view-IsDir (omega arith) (omega (arith, dir_room))
      (λ e. absurd (omega arith)) (omega arith) no_new_name

ialloc-FreshOutcome_example :
    FreshOutcome small_super 1 2 small_cache (ialloc small_super 1 2 small_cache)
ialloc-FreshOutcome_example =
    ialloc-FreshOutcome small_super 1 2 small_cache (omega arith) small_cache-Distinct

-- the path "b/a"
walk_path-enough_example :
    walk_path 1 1 small_super no_devices false 4 [] (98 ∷ 47 ∷ 97 ∷ []) 0 small_cache
    ≡ walk_path 1 1 small_super no_devices false 9 [] (98 ∷ 47 ∷ 97 ∷ []) 0 small_cache
walk_path-enough_example =
    walk_path-enough 1 1 small_super no_devices false 4 9 [] (98 ∷ 47 ∷ 97 ∷ []) 0 small_cache
      (omega arith) (omega arith)

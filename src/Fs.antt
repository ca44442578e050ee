-- ===== src/Fs.antt =====
-- fs.c and fs.h: the file system. A block is its bytes, and the disk is what `bread` gives for each
-- block number: the buffer cache, and behind it the disk, as the running transaction sees them. A
-- block that is changed and passed to `log_write` is a block of the disk replaced.
pub mod Bits
pub mod Alloc
pub mod File
pub mod Inode
pub mod Dir
pub mod Path
use operating_systems_assign.Base.{if◌then◌else◌, ℕ, ◌%◌, ◌*◌, ◌+◌, ◌/◌, ◌==◌}
use operating_systems_assign.CString.{Bytes}

abbrev pub bsize : ℕ
bsize = 512

abbrev pub bpb : ℕ
bpb = 4096

abbrev pub ndirect : ℕ
ndirect = 11

abbrev pub nindirect : ℕ
nindirect = 128

abbrev pub maxfile : ℕ
maxfile = 139

abbrev pub uint : ℕ
uint = 4294967296

-- struct superblock
pub record Super : Type 0 where
  pub size : ℕ
  pub nblocks : ℕ
  pub ninodes : ℕ
  pub nlog : ℕ
  pub logstart : ℕ
  pub inodestart : ℕ
  pub bmapstart : ℕ

abbrev pub Disk : Type 0
Disk = ℕ → Bytes

-- the disk with one block replaced
abbrev pub put_block : Disk → ℕ → Bytes → Disk
put_block d b v x = if x == b then v else d x

-- the block with one byte replaced
abbrev pub put_byte : Bytes → ℕ → ℕ → Bytes
put_byte v i c j = if j == i then c else v j

-- the word `i` of a block, low byte first
abbrev pub word_at : Bytes → ℕ → ℕ
word_at v i = v (4 * i) + 256 * (v (4 * i + 1) + 256 * (v (4 * i + 2) + 256 * v (4 * i + 3)))

-- the block with the word `i` replaced
abbrev pub put_word : Bytes → ℕ → ℕ → Bytes
put_word v i w j =
    if j == 4 * i
    then w % 256
    else if j == 4 * i + 1
    then w / 256 % 256
    else if j == 4 * i + 2
    then w / 65536 % 256
    else if j == 4 * i + 3
    then w / 16777216 % 256
    else v j

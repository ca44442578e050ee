-- ===== src/Fs/File.antt =====
-- fs.c: the contents of an inode: `bmap`, `readi`, `writei`, `itrunc` and `iupdate`. They work on the
-- disk and on the inode that the caller has locked.
pub mod Mapping
pub mod Grow
pub mod Place
pub mod Indirect
pub mod Read
pub mod Put
pub mod Patch
pub mod Write
pub mod Low
pub mod Contents
pub mod Roundtrip
pub mod Freed
pub mod Slots
pub mod Trunc
pub mod Bmap
use operating_systems_assign.Base.{
  List, min, Option, [], drop, get_or, if◌then◌else◌, leb, length, ltb, none, some, suc, take, zero,
  ℕ, ◌%◌, ◌&&◌, ◌*◌, ◌++◌, ◌+◌, ◌-◌, ◌/◌, ◌==◌, ◌||◌,
}
use operating_systems_assign.Base.Int.{negsuc, pos, ℤ}
use operating_systems_assign.CString.{Bytes, array, rest}
use operating_systems_assign.Kernel.{Cmd, and_then, done, panics, pure, Run, sleeps}
use operating_systems_assign.Fs.{
  Disk, Super, bsize, maxfile, ndirect, nindirect, put_block, put_word, uint, word_at,
}
use operating_systems_assign.Fs.Alloc.{balloc, bfree}

-- struct inode, but for its place in the cache; `major`, `minor` and `nlink` are their 16 bits
pub record Inode : Type 0 where
  pub inum : ℕ
  pub perm : ℕ
  pub type : ℕ
  pub major : ℕ
  pub minor : ℕ
  pub nlink : ℕ
  pub size : ℕ
  pub addrs : ℕ → ℕ
  pub owner : ℕ

pub record View : Type 0 where
  pub disk : Disk
  pub ip : Inode

-- the devices, by their major number: what `devsw[major].read` and `.write` give
pub record Devsw : Type 0 where
  pub read : ℕ → Option (ℕ → ℤ × List ℕ)
  pub write : ℕ → Option (List ℕ → ℤ)

abbrev pub t_dir : ℕ
t_dir = 1

abbrev pub t_file : ℕ
t_file = 2

abbrev pub t_dev : ℕ
t_dev = 3

abbrev pub ndev : ℕ
ndev = 10

module _ {A : Type 0} where
  abbrev pub with_disk : View → Run Disk A → Run View A
  with_disk s (done a d) = done a (record s { disk = d })
  with_disk s sleeps = sleeps
  with_disk s panics = panics

  abbrev pub on_disk : Cmd Disk A → Cmd View A
  on_disk m s = with_disk s (m s.disk)

-- ip->addrs[i] = b
abbrev pub set_addr : ℕ → ℕ → Inode → Inode
set_addr i b ip = record ip { addrs = λ j. if j == i then b else ip.addrs j }

-- ip->addrs[i], allocated if it is 0
unfoldable pub slot_addr : Super → ℕ → Cmd View ℕ
slot_addr sb i s =
    if s.ip.addrs i == 0
    then and_then (on_disk (balloc sb) s) (λ b t. done b (record t { ip = set_addr i b t.ip }))
    else done (s.ip.addrs i) s

-- the word `i` of the indirect block `a`, allocated if it is 0
unfoldable pub word_addr : Super → ℕ → ℕ → Cmd View ℕ
word_addr sb i a s =
    let w = word_at (s.disk a) i in
    if w == 0
    then and_then (on_disk (balloc sb) s)
        (λ b t. done b (record t { disk = put_block t.disk a (put_word (t.disk a) i b) }))
    else done w s

unfoldable pub bmap : Super → ℕ → Cmd View ℕ
unfolding slot_addr word_addr
bmap sb bn s =
    if ltb bn ndirect
    then slot_addr sb bn s
    else if ltb (bn - ndirect) nindirect
    then and_then (slot_addr sb ndirect s) (word_addr sb (bn - ndirect))
    else panics

-- the loop of `readi` with `n` bytes left, for at most `m` rounds
unfoldable pub read_from : Super → ℕ → ℕ → ℕ → Cmd View (List ℕ)
unfolding bmap
read_from sb zero off n s = done [] s
read_from sb (suc m) off n s =
    let k = min n (bsize - off % bsize) in
    let rest = read_from sb m (off + k) (n - k) in
    if n == 0
    then done [] s
    else and_then (bmap sb (off / bsize) s) (λ a t.
      and_then (rest t) (λ bytes u. done (array k (λ i. t.disk a (off % bsize + i)) ++ bytes) u))

abbrev pub read_device : Option (ℕ → ℤ × List ℕ) → ℕ → Cmd View (ℤ × List ℕ)
read_device none n = pure (negsuc 0, [])
read_device (some read) n = pure (read n)

-- the result, and the bytes for `dst`
unfoldable pub readi : Super → Devsw → ℕ → ℕ → Cmd View (ℤ × List ℕ)
unfolding read_from
readi sb dev off n s =
    if s.ip.type == t_dev
    then (if leb ndev s.ip.major
        then done (negsuc 0, []) s
        else read_device (dev.read s.ip.major) n s)
    else if ltb s.ip.size off || ltb ((off + n) % uint) off
    then done (negsuc 0, []) s
    else (let k = if ltb s.ip.size ((off + n) % uint) then s.ip.size - off else n in
        and_then (read_from sb (suc k) off k s) (λ bytes t. done (pos k, bytes) t))

-- `memmove(bp->data + o, src, m)`
abbrev pub write_at : Bytes → ℕ → List ℕ → Bytes
write_at v o src i = if leb o i && ltb i (o + length src) then get_or src (i - o) 0 else v i

-- the loop of `writei` for the bytes left, for at most `m` rounds; the result is the last `off`
unfoldable pub write_from : Super → ℕ → ℕ → List ℕ → Cmd View ℕ
unfolding bmap
write_from sb zero off src s = done off s
write_from sb (suc m) off src s =
    let k = min (length src) (bsize - off % bsize) in
    let rest = write_from sb m (off + k) (drop k src) in
    if length src == 0
    then done off s
    else and_then (bmap sb (off / bsize) s) (λ a t.
      rest
        (record t { disk = put_block t.disk a (write_at (t.disk a) (off % bsize) (take k src)) }))

-- the byte `i` of a word
unfoldable pub word_byte : ℕ → ℕ → ℕ
word_byte w i =
    if i == 0
    then w % 256
    else if i == 1
    then w / 256 % 256
    else if i == 2
    then w / 65536 % 256
    else w / 16777216 % 256

-- struct dinode of the inode, as the 64 bytes on the disk
unfoldable pub dinode_byte : Inode → ℕ → ℕ
dinode_byte ip i =
    if i == 0
    then ip.perm % 256
    else if i == 1
    then ip.type % 256
    else if i == 2
    then ip.major % 256
    else if i == 3
    then ip.major / 256 % 256
    else if i == 4
    then ip.minor % 256
    else if i == 5
    then ip.minor / 256 % 256
    else if i == 6
    then ip.nlink % 256
    else if i == 7
    then ip.nlink / 256 % 256
    else if ltb i 12
    then word_byte ip.size (i - 8)
    else if ltb i 60
    then word_byte (ip.addrs ((i - 12) / 4)) ((i - 12) % 4)
    else word_byte ip.owner (i - 60)

-- IPB is 8
abbrev pub iblock : Super → ℕ → ℕ
iblock sb inum = inum / 8 + sb.inodestart

-- the block with the inode's 64 bytes in it
abbrev pub inode_bytes : Inode → Bytes → Bytes
inode_bytes ip v i =
    let o = ip.inum % 8 * 64 in if leb o i && ltb i (o + 64) then dinode_byte ip (i - o) else v i

unfoldable pub iupdate : Super → Cmd View (Unit {0})
iupdate sb s =
    let b = iblock sb s.ip.inum in
    done tt (record s { disk = put_block s.disk b (inode_bytes s.ip (s.disk b)) })

-- the loop of `itrunc` over the direct blocks, from the slot `i` on for `m` rounds
unfoldable pub free_slots : Super → ℕ → ℕ → Cmd View (Unit {0})
free_slots sb i zero s = done tt s
free_slots sb i (suc m) s =
    let rest = free_slots sb (suc i) m in
    if s.ip.addrs i == 0
    then rest s
    else and_then (on_disk (bfree sb (s.ip.addrs i)) s)
        (λ _ t. rest (record t { ip = set_addr i 0 t.ip }))

-- the loop of `itrunc` over the words of the indirect block `a`, from the word `j` on for `m` rounds
unfoldable pub free_words : Super → ℕ → ℕ → ℕ → Cmd View (Unit {0})
free_words sb a j zero s = done tt s
free_words sb a j (suc m) s =
    let rest = free_words sb a (suc j) m in
    let w = word_at (s.disk a) j in
    if w == 0 then rest s else and_then (on_disk (bfree sb w) s) (λ _ t. rest t)

unfoldable pub free_indirect : Super → Cmd View (Unit {0})
free_indirect sb s =
    let a = s.ip.addrs ndirect in
    if a == 0
    then done tt s
    else and_then (free_words sb a 0 nindirect s) (λ _ t.
      and_then (on_disk (bfree sb a) t)
        (λ _ u. done tt (record u { ip = set_addr ndirect 0 u.ip })))

unfoldable pub itrunc : Super → Cmd View (Unit {0})
itrunc sb s = and_then (free_slots sb 0 ndirect s) (λ _ t.
    and_then (free_indirect sb t) (λ _ u. iupdate sb (record u { ip = record u.ip { size = 0 } })))

abbrev pub write_device : Option (List ℕ → ℤ) → List ℕ → Cmd View ℤ
write_device none src = pure (negsuc 0)
write_device (some write) src = pure (write src)

-- what `writei` does behind its loop, which ended at `off`
unfoldable pub write_end : Super → ℕ → ℕ → Cmd View ℤ
unfolding iupdate
write_end sb n off s =
    if ltb 0 n && ltb s.ip.size off
    then and_then (iupdate sb (record s { ip = record s.ip { size = off } }))
        (λ _ t. done (pos n) t)
    else done (pos n) s

unfoldable pub writei : Super → Devsw → List ℕ → ℕ → Cmd View ℤ
unfolding write_from write_end
writei sb dev src off s =
    let n = length src in
    if s.ip.type == t_dev
    then (if leb ndev s.ip.major
        then done (negsuc 0) s
        else write_device (dev.write s.ip.major) src s)
    else if ltb s.ip.size off || ltb ((off + n) % uint) off
    then done (negsuc 0) s
    else if ltb (maxfile * bsize) ((off + n) % uint)
    then done (negsuc 0) s
    else and_then (write_from sb (suc n) off src s) (write_end sb n)

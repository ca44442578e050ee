-- ===== src/Fs/Inode/Dinode.antt =====
-- fs.c: an inode in its block, as `iupdate` writes it and `ilock` reads it.
use operating_systems_assign.Fs.Inode.{read_dinode, short_from, word_from}
use operating_systems_assign.Base.{
  arith, leb, ltb, refl, true, ℕ, ◌%◌, ◌&&◌, ◌*◌, ◌+◌, ◌-◌, ◌<◌, ◌≡◌, ◌≤◌, false, ◌/◌, ◌==◌, ◌∙◌,
  ap, suc, zero,
}
use operating_systems_assign.CString.{Bytes}
use operating_systems_assign.Fs.{ndirect, uint}
use operating_systems_assign.Fs.File.{Inode, dinode_byte, inode_bytes, word_byte}

-- the fields of the inode fit the widths they have in `struct dinode`
pub record IsInode (ip : Inode) : Type 0 where
  pub perm : ip.perm < 256
  pub type : ip.type < 256
  pub major : ip.major < 65536
  pub minor : ip.minor < 65536
  pub nlink : ip.nlink < 65536
  pub size : ip.size < uint
  pub addrs : (j : ℕ) → j ≤ ndirect → ip.addrs j < uint
  pub owner : ip.owner < uint

-- two inodes with the same fields, as far as the addresses go
pub record SameInode (ip ip2 : Inode) : Type 0 where
  pub inum : ip.inum ≡ ip2.inum
  pub perm : ip.perm ≡ ip2.perm
  pub type : ip.type ≡ ip2.type
  pub major : ip.major ≡ ip2.major
  pub minor : ip.minor ≡ ip2.minor
  pub nlink : ip.nlink ≡ ip2.nlink
  pub size : ip.size ≡ ip2.size
  pub addrs : (j : ℕ) → j ≤ ndirect → ip.addrs j ≡ ip2.addrs j
  pub owner : ip.owner ≡ ip2.owner

inode_bytes-at :
    (ip : Inode) (v : Bytes) (i : ℕ)
    → i < 64
    → inode_bytes ip v (ip.inum % 8 * 64 + i) ≡ dinode_byte ip i
inode_bytes-at ip v i l =
    let n = ip.inum % 8 * 64 in
    let o : (leb n (n + i) && ltb (n + i) (n + 64)) ≡ true = ground arith in
    let d : n + i - n ≡ i = omega arith in simp (o, d) refl

word_byte-join :
    (w : ℕ)
    → w < uint
    → word_byte w 0 + 256 * (word_byte w 1 + 256 * (word_byte w 2 + 256 * word_byte w 3)) ≡ w
unfolding word_byte
word_byte-join w l = omega arith

dinode_byte-word :
    (ip : Inode) (j r i : ℕ)
    → j ≤ ndirect
    → r < 4
    → i ≡ 12 + 4 * j + r
    → dinode_byte ip i ≡ word_byte (ip.addrs j) r
unfolding dinode_byte
dinode_byte-word ip j r i l m e =
    let z0 : (i == 0) ≡ false = ground arith in
    let z1 : (i == 1) ≡ false = ground arith in
    let z2 : (i == 2) ≡ false = ground arith in
    let z3 : (i == 3) ≡ false = ground arith in
    let z4 : (i == 4) ≡ false = ground arith in
    let z5 : (i == 5) ≡ false = ground arith in
    let z6 : (i == 6) ≡ false = ground arith in
    let z7 : (i == 7) ≡ false = ground arith in
    let a : ltb i 12 ≡ false = ground arith in
    let b : ltb i 60 ≡ true = ground arith in
    let q : (i - 12) / 4 ≡ j = omega arith in
    let p : (i - 12) % 4 ≡ r = omega arith in simp (z0, z1, z2, z3, z4, z5, z6, z7, a, b, q, p) refl

word_from-join :
    (w : Bytes) (p n : ℕ)
    → n < uint
    → ((r : ℕ) → r < 4 → w (p + r) ≡ word_byte n r)
    → word_from w p ≡ n
word_from-join w p n l h =
    let b0 : w p ≡ word_byte n 0 = ap w (omega arith) ∙ h 0 (omega arith) in
    simp (b0, h 1 (omega arith), h 2 (omega arith), h 3 (omega arith)) (word_byte-join n l)

short_from-join :
    (w : Bytes) (p n : ℕ)
    → n < 65536
    → w p ≡ n % 256
    → w (p + 1) ≡ n / 256 % 256
    → short_from w p ≡ n
short_from-join w p n l a b = simp (a, b) (omega arith)

-- the bytes of the size and of the owner
dinode_byte-size : (ip : Inode) (r : ℕ) → r < 4 → dinode_byte ip (8 + r) ≡ word_byte ip.size r
unfolding dinode_byte
dinode_byte-size ip zero m = refl
dinode_byte-size ip (suc zero) m = refl
dinode_byte-size ip (suc (suc zero)) m = refl
dinode_byte-size ip (suc (suc (suc zero))) m = refl
dinode_byte-size ip (suc (suc (suc (suc r)))) m = absurd (omega arith)

dinode_byte-owner : (ip : Inode) (r : ℕ) → r < 4 → dinode_byte ip (60 + r) ≡ word_byte ip.owner r
unfolding dinode_byte
dinode_byte-owner ip zero m = refl
dinode_byte-owner ip (suc zero) m = refl
dinode_byte-owner ip (suc (suc zero)) m = refl
dinode_byte-owner ip (suc (suc (suc zero))) m = refl
dinode_byte-owner ip (suc (suc (suc (suc r)))) m = absurd (omega arith)

-- What `iupdate` writes of an inode into its block is the inode that `ilock` reads from there, if each
-- field fits its width in `struct dinode`.
pub read_dinode-inode_bytes :
    (ip : Inode) (v : Bytes) → IsInode ip → SameInode (read_dinode ip.inum (inode_bytes ip v)) ip
unfolding read_dinode dinode_byte
read_dinode-inode_bytes ip v h =
    let o = ip.inum % 8 * 64 in
    let w = inode_bytes ip v in
    let at : (i : ℕ) → i < 64 → w (o + i) ≡ dinode_byte ip i = inode_bytes-at ip v in
    record {
      inum = refl;
      perm = (let l = h.perm in ap w (omega arith) ∙ at 0 (omega arith) ∙ omega arith);
      type = (let l = h.type in at 1 (omega arith) ∙ omega arith);
      major =
          short_from-join w (o + 2) ip.major h.major (at 2 (omega arith))
            (ap w (omega arith) ∙ at 3 (omega arith));
      minor =
          short_from-join w (o + 4) ip.minor h.minor (at 4 (omega arith))
            (ap w (omega arith) ∙ at 5 (omega arith));
      nlink =
          short_from-join w (o + 6) ip.nlink h.nlink (at 6 (omega arith))
            (ap w (omega arith) ∙ at 7 (omega arith));
      size =
          word_from-join w (o + 8) ip.size h.size
            (λ r l. ap w (omega arith) ∙ at (8 + r) (omega arith) ∙ dinode_byte-size ip r l);
      addrs = λ j m. word_from-join w (o + 12 + 4 * j) (ip.addrs j) (h.addrs j m) (λ r l.
          ap w (omega arith)
          ∙ at (12 + 4 * j + r) (omega arith)
          ∙ dinode_byte-word ip j r (12 + 4 * j + r) m l refl);
      owner =
          word_from-join w (o + 60) ip.owner h.owner
            (λ r l. ap w (omega arith) ∙ at (60 + r) (omega arith) ∙ dinode_byte-owner ip r l);
    }

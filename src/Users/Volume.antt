-- ===== src/Users/Volume.antt =====
-- usermanage.c over the models of fs.c, log.c and sleeplock.c: the laws that the user table relies on
-- hold of them. A volume has the log, the lock of the inode of /passwd, and that inode with the cached
-- blocks; no other operation runs. The lookup and the creation of /passwd are parameters.
pub mod Laws
use operating_systems_assign.Fs.File.Patch.{patched, patched-in, patched-out}
use operating_systems_assign.Log.Ops.{begin_op, end_op}
use operating_systems_assign.Fs.File.Contents.{Written, writei-Written}
use operating_systems_assign.Users.Store.{splice}
use operating_systems_assign.Fs.File.Roundtrip.{array-entries}
use operating_systems_assign.Fs.File.Read.{IsCovered, readi-contents}
use operating_systems_assign.Users.{FileOps}
use operating_systems_assign.Base.Int.{pos, ℤ}
use operating_systems_assign.Kernel.Ends.{Ends, Ends-mono}
use operating_systems_assign.Fs.File.Mapping.{byte_at, Sound, addr_of}
use operating_systems_assign.Fs.{Super, bsize, uint}
use operating_systems_assign.CString.{array, rest}
use operating_systems_assign.Kernel.{Run, Cmd, done, panics, sleeps}
use operating_systems_assign.SleepLock.{
  SleepLock, acquiresleep, holdingsleep, initsleeplock, releasesleep,
}
use operating_systems_assign.Fs.File.{View, Devsw, Inode, iblock, readi, t_dev, writei}
use operating_systems_assign.Log.{Log}
use operating_systems_assign.Base.{
  ℕ, Bool, Bool-cases, List, [], ap, arith, drop, false, get_or, get_or-drop, get_or-take,
  if◌then◌else◌, inl, inr, length, length-append, length-drop, length-take, ltb, min, refl, suc,
  sym, take, true, zero, ◌++◌, ◌+◌, ◌-◌, ◌<◌, ◌∙◌, ◌∷◌, ◌≡◌, ◌≢◌, ◌≤◌,
}

pub record Volume : Type 0 where
  pub log : Log
  pub lock : SleepLock
  pub view : View

module _ {A : Type 0} where
  abbrev pub with_log : Volume → Run Log A → Run Volume A
  with_log s (done a l) = done a (record s { log = l })
  with_log s sleeps = sleeps
  with_log s panics = panics

  abbrev pub with_inode_lock : Volume → Run SleepLock A → Run Volume A
  with_inode_lock s (done a l) = done a (record s { lock = l })
  with_inode_lock s sleeps = sleeps
  with_inode_lock s panics = panics

  abbrev pub with_view : Volume → Run View A → Run Volume A
  with_view s (done a v) = done a (record s { view = v })
  with_view s sleeps = sleeps
  with_view s panics = panics

-- the end of `iunlock`
abbrev pub unlock_inode : ℕ → SleepLock → Run SleepLock (Unit {0})
unlock_inode pid lk = if holdingsleep pid lk then releasesleep lk else panics

module _ (sb : Super) (dev : Devsw) (pid : ℕ) (namei create : Cmd Volume Bool)
    (set_mode : ℕ → ℕ → Cmd Volume (Unit {0})) where
  abbrev pub volume_ops : FileOps Volume
  volume_ops = record {
    begin_op = λ s. with_log s (begin_op s.log);
    ilock = λ s. with_inode_lock s (acquiresleep pid s.lock);
    iunlock = λ s. with_inode_lock s (unlock_inode pid s.lock);
    end_op = λ s. with_log s (end_op s.log);
    writei = λ src off s. with_view s (writei sb dev src off s.view);
    readi = λ off n s. with_view s (readi sb dev off n s.view);
    namei = namei;
    create = create;
    set_mode = set_mode;
  }

-- the bytes of the file
abbrev pub bytes_of : View → List ℕ
bytes_of v = array v.ip.size (byte_at v)

-- The file has contents, and is sound.
pub record IsStore (sb : Super) (v : View) : Type 0 where
  pub sound : Sound sb v
  pub covered : IsCovered v
  pub file : v.ip.type ≢ t_dev
  pub some_bytes : 0 < v.ip.size
  pub front : iblock sb v.ip.inum < sb.bmapstart

abbrev pub IsFree : SleepLock → Type 0
IsFree lk = lk ≡ initsleeplock

abbrev pub IsHeld : ℕ → SleepLock → Type 0
IsHeld pid lk = lk ≡ record { locked = true; pid = pid }

abbrev pub InLog : ℕ → Log → Type 0
InLog k l = (l.outstanding ≡ k) × (l.committing ≡ false) × (l.n ≡ 0)

pub length-array : (n : ℕ) (f : ℕ → ℕ) → length (array n f) ≡ n
length-array zero f = refl
length-array (suc n) f = ap suc (length-array n (rest f))

get_or-array : (n : ℕ) (f : ℕ → ℕ) (i : ℕ) → i < n → get_or (array n f) i 0 ≡ f i
get_or-array zero f i l = absurd (omega arith)
get_or-array (suc n) f zero l = refl
get_or-array (suc n) f (suc i) l = get_or-array n (rest f) i (omega arith)

-- the entry `i` of two lists behind each other
get_or-front : (xs ys : List ℕ) (i : ℕ) → i < length xs → get_or (xs ++ ys) i 0 ≡ get_or xs i 0
get_or-front [] ys i l = absurd (omega arith)
get_or-front (x ∷ xs) ys zero l = refl
get_or-front (x ∷ xs) ys (suc i) l = get_or-front xs ys i (omega arith)

get_or-back : (xs ys : List ℕ) (i j : ℕ) → i ≡ length xs + j → get_or (xs ++ ys) i 0 ≡ get_or ys j 0
get_or-back [] ys i j e = ap (λ (k : ℕ). get_or ys k 0) (omega arith)
get_or-back (x ∷ xs) ys zero j e = absurd (omega arith)
get_or-back (x ∷ xs) ys (suc i) j e = get_or-back xs ys i j (omega arith)

module _ (sb : Super) (dev : Devsw) (big : sb.size < uint) where
  -- `readi` gives a part of the bytes.
  pub readi-bytes :
      (v : View) (off n : ℕ)
      → IsStore sb v
      → off + n ≤ v.ip.size
      → readi sb dev off n v ≡ done (pos n, take n (drop off (bytes_of v))) v
  readi-bytes v off n h l =
      let c = h.covered.0 in
      let k = min n (v.ip.size - off) in
      let e : k ≡ n = omega arith in
      let size = length-array v.ip.size (byte_at v) in
      let a = length-take n (drop off (bytes_of v)) in
      let b = length-drop off (bytes_of v) in
      let part : array k (λ i. byte_at v (off + i)) ≡ take n (drop off (bytes_of v)) =
        array-entries (take n (drop off (bytes_of v))) k (λ i. byte_at v (off + i)) (omega arith)
          (λ i m. sym (
            get_or-take n (drop off (bytes_of v)) i 0 (omega arith)
            ∙ get_or-drop off (bytes_of v) i (off + i) 0 refl
            ∙ get_or-array v.ip.size (byte_at v) (off + i) (omega arith))) in
      readi-contents sb dev v off n h.file h.covered (omega arith) (omega arith)
      ∙ ap (λ (bytes : List ℕ). done (pos k, bytes) v) part
      ∙ ap (λ (m : ℕ). done (pos m, take n (drop off (bytes_of v))) v) e

  module _ (v : View) (src : List ℕ) (off : ℕ) (h : IsStore sb v) (in_file : off ≤ v.ip.size)
      (r : ℤ) (t : View) (w : Written sb v src off r t) where
    spliced_at :
        (i : ℕ)
        → i < t.ip.size
        → patched (byte_at v) off src i ≡ get_or (splice (bytes_of v) off src) i 0
    spliced_at i l =
        let c = bytes_of v in
        let size = length-array v.ip.size (byte_at v) in
        let front = length-take off c in
        let ends_at = w.size in
        elim (Bool-cases (ltb i off)) [
          | inl a ↦
              patched-out (byte_at v) off src i (inl (ground arith))
              ∙ sym (
                  get_or-front (take off c) (src ++ drop (off + length src) c) i (ground arith)
                  ∙ get_or-take off c i 0 (ground arith)
                  ∙ get_or-array v.ip.size (byte_at v) i (ground arith))
          | inr a ↦ elim (Bool-cases (ltb i (off + length src))) [
            | inl b ↦
                patched-in (byte_at v) off src i (ground arith) (ground arith)
                ∙ sym (
                    get_or-back (take off c) (src ++ drop (off + length src) c) i (i - off)
                      (ground arith)
                    ∙ get_or-front src (drop (off + length src) c) (i - off) (ground arith))
            | inr b ↦
                patched-out (byte_at v) off src i (inr (ground arith))
                ∙ sym (
                    get_or-back (take off c) (src ++ drop (off + length src) c) i (i - off)
                      (ground arith)
                    ∙ get_or-back src (drop (off + length src) c) (i - off) (i - (off + length src))
                        (ground arith)
                    ∙ get_or-drop (off + length src) c (i - (off + length src)) i 0 (ground arith)
                    ∙ get_or-array v.ip.size (byte_at v) i (ground arith))
          ]
        ]

    spliced : bytes_of t ≡ splice (bytes_of v) off src
    spliced =
        let c = bytes_of v in
        let size = length-array v.ip.size (byte_at v) in
        let a = length-take off c in
        let b = length-drop (off + length src) c in
        let d = length-append (take off c) (src ++ drop (off + length src) c) in
        let e = length-append src (drop (off + length src) c) in
        let ends_at = w.size in
        let max = w.covered.0 in
        let whole : t.ip.size ≡ length (splice c off src) = ground arith in
        array-entries (splice c off src) t.ip.size (byte_at t) whole
          (λ i l. w.bytes i (omega arith) ∙ spliced_at i (omega arith))

    still_IsStore : IsStore sb t
    still_IsStore =
        let ends_at = w.size in
        let n = h.some_bytes in
        let f = h.front in
        let j : t.ip.inum ≡ v.ip.inum = ap (λ (ip : Inode). ip.inum) w.fields in
        let kind : t.ip.type ≡ v.ip.type = ap (λ (ip : Inode). ip.type) w.fields in
        record {
          sound = w.sound;
          covered = w.covered;
          file = λ q. h.file (sym kind ∙ q);
          some_bytes = ground arith;
          front = omega arith;
        }

  -- `writei` within the first block puts the bytes into the contents.
  pub writei-bytes :
      (v : View) (src : List ℕ) (off : ℕ)
      → IsStore sb v
      → off ≤ v.ip.size
      → off + length src ≤ bsize
      → Ends
          (λ r t.
            (r ≡ pos (length src)) × IsStore sb t × (bytes_of t ≡ splice (bytes_of v) off src))
          (writei sb dev src off v)
  writei-bytes v src off h l fit =
      let first : addr_of v 0 ≢ 0 = h.covered.1 0 h.some_bytes in
      Ends-mono
        (writei-Written sb dev src off v big h.front h.sound h.covered h.file l (omega arith)
          (omega arith) (inr (λ x lo hi z. first (ap (addr_of v) (omega arith) ∙ z))))
        (λ r t w. (w.result, still_IsStore v src off h l r t w, spliced v src off h l r t w))

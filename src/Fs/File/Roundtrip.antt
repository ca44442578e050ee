-- ===== src/Fs/File/Roundtrip.antt =====
-- fs.c: `readi` behind `writei`.
use operating_systems_assign.Fs.File.Write.{HasRoom}
use operating_systems_assign.Base.{
  List, [], ap, arith, get_or, length, min, refl, suc, sym, zero, ℕ, ◌*◌, ◌+◌, ◌-◌, ◌<◌, ◌∙◌, ◌∷◌,
  ◌≡◌, ◌≢◌, ◌≤◌,
}
use operating_systems_assign.Base.Int.{pos, ℤ}
use operating_systems_assign.CString.{array, rest}
use operating_systems_assign.Kernel.{done}
use operating_systems_assign.Kernel.Ends.{Ends, Ends-mono}
use operating_systems_assign.Fs.{Super, bsize, maxfile, uint}
use operating_systems_assign.Fs.File.{Devsw, Inode, View, iblock, readi, t_dev, writei}
use operating_systems_assign.Fs.File.Mapping.{Sound, byte_at}
use operating_systems_assign.Fs.File.Read.{IsCovered, readi-contents, same_cons}
use operating_systems_assign.Fs.File.Patch.{patched-in}
use operating_systems_assign.Fs.File.Contents.{Written, op_bytes, writei-Written}

pub array-entries :
    (xs : List ℕ) (n : ℕ) (f : ℕ → ℕ)
    → n ≡ length xs
    → ((i : ℕ) → i < length xs → f i ≡ get_or xs i 0)
    → array n f ≡ xs
array-entries [] zero f e h = refl
array-entries [] (suc n) f e h = absurd (omega arith)
array-entries (x ∷ xs) zero f e h = absurd (omega arith)
array-entries (x ∷ xs) (suc n) f e h =
    same_cons (h 0 (omega arith))
      (array-entries xs n (rest f) (omega arith) (λ i l. h (suc i) (omega arith)))

read_back :
    (sb : Super) (dev : Devsw) (s : View) (src : List ℕ) (off : ℕ) (r : ℤ) (t : View)
    → s.ip.type ≢ t_dev
    → off + length src ≤ maxfile * bsize
    → Written sb s src off r t
    → readi sb dev off (length src) t ≡ done (pos (length src), src) t
read_back sb dev s src off r t file fit w =
    let k = min (length src) (t.ip.size - off) in
    let type : t.ip.type ≡ s.ip.type = ap (λ (ip : Inode). ip.type) w.fields in
    let z = w.size in
    let size : off + length src ≤ t.ip.size = ground arith in
    let e : k ≡ length src = omega arith in
    readi-contents sb dev t off (length src) (λ q. file (sym type ∙ q)) w.covered (omega arith)
      (omega arith)
    ∙ ap (λ (bytes : List ℕ). done (pos k, bytes) t)
        (array-entries src k (λ i. byte_at t (off + i)) e
          (λ i l.
            w.bytes (off + i) (omega arith)
            ∙ patched-in (byte_at s) off src (off + i) (omega arith) (omega arith)
            ∙ ap (λ (x : ℕ). get_or src x 0) (omega arith)))
    ∙ ap (λ (x : ℕ). done (pos x, src) t) e

-- As far as `log_write` takes its blocks: what `writei`, of no more bytes than `filewrite` gives it
-- in one transaction, put into a sound file without holes, within it or at its end and below the
-- largest size, with its blocks there or room on the disk for those it may need, is what `readi` of
-- the same place returns.
pub readi-writei :
    (sb : Super) (dev : Devsw) (src : List ℕ) (off : ℕ) (s : View)
    → (big : sb.size < uint) → iblock sb s.ip.inum < sb.bmapstart
    → Sound sb s
    → IsCovered s
    → s.ip.type ≢ t_dev
    → off ≤ s.ip.size
    → off + length src ≤ maxfile * bsize
    → length src ≤ op_bytes
    → HasRoom sb big s off (length src)
    → Ends
        (λ r t.
          (r ≡ pos (length src))
          × (readi sb dev off (length src) t ≡ done (pos (length src), src) t))
        (writei sb dev src off s)
readi-writei sb dev src off s big front sound cover file start fit few room =
    Ends-mono (writei-Written sb dev src off s big front sound cover file start fit few room)
      (λ r t w. (w.result, read_back sb dev s src off r t file fit w))

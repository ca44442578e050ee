-- ===== src/Fs/Dir/Link.antt =====
-- fs.c: `dirlink` and a search behind it.
use mathlib.Core.Path.{subst}
use operating_systems_assign.Fs.File.Read.{get_or-array}
use operating_systems_assign.Kernel.{done, Run, and_then, panics, sleeps}
use operating_systems_assign.CString.Copy.{padded, padded-eq, strncpy-padded}
use operating_systems_assign.PathName.{dirsiz}
use operating_systems_assign.Fs.Alloc.Room.{free_blocks}
use operating_systems_assign.Base.{
  Bool-cases, ap, arith, get_or, inl, inr, ltb, refl, suc, sym, zero, ℕ, ◌%◌, ◌*◌, ◌+◌, ◌<◌, ◌==◌,
  ◌∙◌, ◌≡◌, ◌≢◌, ◌≤◌, Option, if◌then◌else◌, length, none, some, true, ◌/◌, not,
}
use operating_systems_assign.Base.Int.{ℤ, pos}
use operating_systems_assign.CString.{Bytes, strncpy}
use operating_systems_assign.Kernel.Ends.{Ends, ends, Ends-bind}
use operating_systems_assign.Fs.{Super, bsize, maxfile, uint}
use operating_systems_assign.Fs.File.{Devsw, Inode, View, iblock, writei}
use operating_systems_assign.Fs.File.Mapping.{byte_at, Sound}
use operating_systems_assign.Fs.File.Patch.{patched-in, patched-out}
use operating_systems_assign.Fs.File.Contents.{Written, writei-Written}
use operating_systems_assign.Fs.Dir.{de_inum, dirent, find_free, add_entry, find_in_dir, is_int}
use operating_systems_assign.Fs.Dir.Lookup.{
  IsDir, Matches, de_at, entry_inum, readi-entry, Lookup, find_in_dir-Lookup,
}

-- an offset for a new entry
abbrev IsPlace : View → ℕ → View → Type 0
IsPlace s off t = (t ≡ s) × (off ≤ s.ip.size) × (off % 16 ≡ 0)

find_free-IsPlace :
    (sb : Super) (dev : Devsw) (s : View)
    → IsDir s
    → (m k : ℕ) → 16 * k ≤ s.ip.size
    → s.ip.size ≤ 16 * k + 16 * m
    → Ends (IsPlace s) (find_free sb dev (16 * k) m s)
unfolding find_free
find_free-IsPlace sb dev s d zero k l h = ends (refl, l, omega arith)
find_free-IsPlace sb dev s d (suc m) k l h =
    let next : 16 * k + 16 ≡ 16 * suc k = omega arith in
    let whole = d.whole in
    elim (Bool-cases (ltb (16 * k) s.ip.size)) [
      | inr out ↦ simp (out) (ends (refl, l, omega arith))
      | inl lt ↦
          let r = readi-entry sb dev s k d (ground arith) in
          elim (Bool-cases (de_inum (de_at s (16 * k)) == 0)) [
            | inl z ↦ simp (lt, r, z) (ends (refl, l, omega arith))
            | inr u ↦
                simp (lt, r, u)
                  (subst (λ (x : ℕ). Ends (IsPlace s) (find_free sb dev x m s)) (sym next)
                    (find_free-IsPlace sb dev s d m (suc k) (ground arith) (omega arith)))
          ]
    ]

module _ (sb : Super) (name : Bytes) (inum off : ℕ) (s t : View) (r : ℤ) (d : IsDir s)
    (place : (off ≤ s.ip.size) × (off % 16 ≡ 0)) (fit : off + 16 ≤ maxfile * bsize)
    (w : Written sb s (dirent name inum) off r t) where
  linked-IsDir : IsDir t
  linked-IsDir =
      let z = w.size in
      let whole = d.whole in
      record {
        type = ap (λ (ip : Inode). ip.type) w.fields ∙ d.type;
        covered = w.covered;
        whole =
            (let n : length (dirent name inum) ≡ 16 = refl in let (a, b) = place in ground arith);
      }

  new_byte : (i : ℕ) → i < 16 → byte_at t (off + i) ≡ get_or (dirent name inum) i 0
  new_byte i l =
      w.bytes (off + i) (omega arith)
      ∙ patched-in (byte_at s) off (dirent name inum) (off + i) (omega arith)
          (let n : length (dirent name inum) ≡ 16 = refl in omega arith)
      ∙ ap (λ (x : ℕ). get_or (dirent name inum) x 0) (omega arith)

  new-Matches : inum ≢ 0 → inum < 65536 → (entry_inum t off ≡ inum) × Matches t name off
  new-Matches ne l =
      let b0 : byte_at t off ≡ inum % 256 =
        ap (byte_at t) (omega arith) ∙ new_byte 0 (omega arith) in
      let b1 : byte_at t (off + 1) ≡ inum / 256 % 256 = new_byte 1 (omega arith) in
      let e : entry_inum t off ≡ inum = omega arith in
      (
        e,
        (
          (λ z. ne (sym e ∙ z)),
          λ i m pre.
              let o : ltb i dirsiz ≡ true = ground arith in
              let p : (if ltb i dirsiz then padded name i else 0) ≡ name i =
                simp (o) (padded-eq name i pre) in
              sym (
                ap (byte_at t) (omega arith)
                ∙ new_byte (suc (suc i)) (omega arith)
                ∙ get_or-array 14 (strncpy (λ _. 0) name dirsiz) i m
                ∙ strncpy-padded (λ _. 0) name dirsiz i
                ∙ p),
        ),
      )

  old-Matches : (j : ℕ) → 16 * j < off → Matches t name (16 * j) → Matches s name (16 * j)
  old-Matches j l m =
      let (a, b) = place in
      let same : (x : ℕ) → x < off → byte_at t x ≡ byte_at s x = (λ x k.
        w.bytes x (omega arith) ∙ patched-out (byte_at s) off (dirent name inum) x (inl k)) in
      let n : entry_inum t (16 * j) ≡ entry_inum s (16 * j) =
        (let p = same (16 * j) l in let q = same (16 * j + 1) (omega arith) in omega arith) in
      ((λ z. m.0 (n ∙ z)), λ i k pre. m.1 i k pre ∙ same (16 * j + 2 + i) (omega arith))

  -- the search that finds the new entry
  finds_new :
      inum ≢ 0
      → inum < 65536
      → ((j : ℕ) → 0 ≤ j → 16 * j < s.ip.size → ¬ (Matches s name (16 * j)))
      → (x : Run View (Option (ℕ × ℕ))) → Lookup t name 0 x
      → x ≡ done (some (inum, off)) t
  unfolding Lookup
  finds_new ne l absent (done none u) (e, f) =
      let n : length (dirent name inum) ≡ 16 = refl in
      let z = w.size in
      let (a, b) = place in
      let q : 16 * (off / 16) ≡ off = omega arith in
      absurd (
        f (off / 16) (omega arith) (ground arith)
          (subst (λ (x : ℕ). Matches t name x) (sym q) (new-Matches ne l).1))
  finds_new ne l absent (done (some (i, at)) u) (e, c, low, whole, m, f) =
      let (a, b) = place in
      let (number, new) = new-Matches ne l in
      let q : 16 * (off / 16) ≡ off = omega arith in
      let p : 16 * (at / 16) ≡ at = omega arith in
      let late : ¬ (off < at) = (λ h.
        f (off / 16) (omega arith) (omega arith)
          (subst (λ (x : ℕ). Matches t name x) (sym q) new)) in
      let early : ¬ (at < off) = (λ h.
        absent (at / 16) (omega arith) (omega arith)
          (old-Matches (at / 16) (omega arith) (subst (λ (x : ℕ). Matches t name x) (sym p) m))) in
      let here : at ≡ off = omega arith in
      let i' : i ≡ inum = c ∙ ap (entry_inum t) here ∙ number in simp (e, here, i') refl
  finds_new ne l absent sleeps x = absurd x
  finds_new ne l absent panics x = absurd x

-- Once `dirlink` has entered a name that was not in the directory, `dirlookup` finds it, with the
-- inode number that was entered. The directory is sound and has no holes, it is below the largest
-- size, two blocks are free, and the number is neither 0 nor too large for its two bytes.
pub find_in_dir-add_entry :
    (sb : Super) (dev : Devsw) (name : Bytes) (inum : ℕ) (s : View)
    → sb.size < uint
    → iblock sb s.ip.inum < sb.bmapstart
    → Sound sb s
    → IsDir s
    → s.ip.size + 16 ≤ maxfile * bsize
    → 2 ≤ free_blocks sb s.disk
    → inum ≢ 0
    → inum < 65536
    → find_in_dir sb dev name s ≡ done none s
    → Ends
        (λ r t. (r ≡ pos 0) × ((off : ℕ) × (find_in_dir sb dev name t ≡ done (some (inum, off)) t)))
        (add_entry sb dev name inum s)
unfolding add_entry Lookup
find_in_dir-add_entry sb dev name inum s big front sound d fit room ne l absent =
    let none_of = subst (Lookup s name 0) absent (find_in_dir-Lookup sb dev name s d) in
    Ends-bind (find_free-IsPlace sb dev s d (suc s.ip.size) 0 (omega arith) (omega arith))
      (λ off t (e, a, b).
        let n : length (dirent name inum) ≡ 16 = refl in
        let wrote =
          writei-Written sb dev (dirent name inum) off s big front sound d.covered
            (λ q. let k = d.type in omega arith) a (omega arith) (omega arith)
            (inl (ground arith)) in
        subst
          (λ (x : View).
            Ends
              (λ r u.
                (r ≡ pos 0) × ((o : ℕ) × (find_in_dir sb dev name u ≡ done (some (inum, o)) u)))
              (and_then (writei sb dev (dirent name inum) off x)
                (λ r u. if not (is_int r 16) then panics else done (pos 0) u)))
          (sym e)
          (Ends-bind wrote (λ r u w.
            let v = linked-IsDir sb name inum off s u r d (a, b) (omega arith) w in
            let z : is_int r 16 ≡ true = ap (λ (x : ℤ). is_int x 16) w.result in
            simp (z) (
              ends (
                refl,
                (
                  off,
                  finds_new sb name inum off s u r d (a, b) (omega arith) w ne l none_of.1
                      (find_in_dir sb dev name u) (find_in_dir-Lookup sb dev name u v),
                ),
              )))))

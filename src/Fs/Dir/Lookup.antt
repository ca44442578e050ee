-- ===== src/Fs/Dir/Lookup.antt =====
-- fs.c: `dirlookup` and the entries of a directory.
use mathlib.Core.Path.{subst}
use operating_systems_assign.Base.{
  List, Option, ap, arith, min, none, some, ℕ, ◌%◌, ◌*◌, ◌+◌, ◌-◌, ◌<◌, ◌∙◌, ◌≡◌, ◌≢◌, ◌≤◌,
  Bool-cases, false, inl, inr, ltb, refl, suc, sym, true, zero, ◌==◌,
}
use operating_systems_assign.Base.Int.{pos, negsuc, ℤ}
use operating_systems_assign.CString.{Bytes, array, strncmp}
use operating_systems_assign.CString.Compare.{SameString, strncmp_complete, strncmp_sound}
use operating_systems_assign.PathName.{dirsiz}
use operating_systems_assign.Kernel.{Run, done, panics, sleeps}
use operating_systems_assign.Fs.{Super}
use operating_systems_assign.Fs.File.{Devsw, View, readi, t_dir}
use operating_systems_assign.Fs.File.Mapping.{byte_at, same_or_not}
use operating_systems_assign.Fs.File.Read.{IsCovered, readi-contents, get_or-array}
use operating_systems_assign.Fs.Dir.{de_inum, de_name, find_entry, is_int, namecmp, find_in_dir}

-- the inode number and the name of the entry at `off`
abbrev pub entry_inum : View → ℕ → ℕ
entry_inum s off = byte_at s off + 256 * byte_at s (off + 1)

abbrev pub entry_name : View → ℕ → Bytes
entry_name s off i = byte_at s (off + 2 + i)

-- The entry at `off` is in use and has the name.
abbrev pub Matches : View → Bytes → ℕ → Type 0
Matches s name off = (entry_inum s off ≢ 0) × SameString name (entry_name s off) dirsiz

-- A directory: a file without holes, of whole entries.
pub record IsDir (s : View) : Type 0 where
  pub type : s.ip.type ≡ t_dir
  pub covered : IsCovered s
  pub whole : s.ip.size % 16 ≡ 0

-- what a search from the entry `k` on is to give: the first entry with the name, or none
unfoldable pub Lookup : View → Bytes → ℕ → Run View (Option (ℕ × ℕ)) → Type 0
Lookup s name k (done none t) =
    (t ≡ s) × ((j : ℕ) → k ≤ j → 16 * j < s.ip.size → ¬ (Matches s name (16 * j)))
Lookup s name k (done (some (inum, off)) t) =
    (t ≡ s)
    × (inum ≡ entry_inum s off)
    × (off < s.ip.size)
    × (off % 16 ≡ 0)
    × Matches s name off
    × ((j : ℕ) → k ≤ j → 16 * j < off → ¬ (Matches s name (16 * j)))
Lookup s name k sleeps = ⊥
Lookup s name k panics = ⊥

-- an entry as `readi` gives it
abbrev pub de_at : View → ℕ → List ℕ
de_at s off = array 16 (λ i. byte_at s (off + i))

pub readi-entry :
    (sb : Super) (dev : Devsw) (s : View) (k : ℕ)
    → IsDir s
    → 16 * k < s.ip.size
    → readi sb dev (16 * k) 16 s ≡ done (pos 16, de_at s (16 * k)) s
readi-entry sb dev s k d l =
    let w = d.whole in
    let m = d.covered.0 in
    let e : min 16 (s.ip.size - 16 * k) ≡ 16 = omega arith in
    readi-contents sb dev s (16 * k) 16 (λ q. let t = d.type in omega arith) d.covered (omega arith)
      (omega arith)
    ∙ ap (λ (x : ℕ). done (pos x, array x (λ i. byte_at s (16 * k + i))) s) e

pub de_inum-at : (s : View) (off : ℕ) → de_inum (de_at s off) ≡ entry_inum s off
de_inum-at s off = ap (λ (x : ℕ). byte_at s x + 256 * byte_at s (off + 1)) (omega arith)

is_int-eq : (z : ℤ) (n : ℕ) → is_int z n ≡ true → z ≡ pos n
is_int-eq (pos m) n e = ap pos (ground arith)
is_int-eq (negsuc m) n e = absurd (ground (arith, e))

de_name-at : (s : View) (off i : ℕ) → i < dirsiz → de_name (de_at s off) i ≡ entry_name s off i
de_name-at s off i l =
    get_or-array 14 (λ j. byte_at s (off + suc (suc j))) i l ∙ ap (byte_at s) (omega arith)

-- the comparison of `dirlookup` for an entry that is in use
namecmp-Matches :
    (s : View) (name : Bytes) (off : ℕ)
    → is_int (namecmp name (de_name (de_at s off))) 0 ≡ true
    → SameString name (entry_name s off) dirsiz
unfolding namecmp
namecmp-Matches s name off e = λ i l pre.
    strncmp_sound name (de_name (de_at s off)) dirsiz (is_int-eq _ 0 e) i l pre
    ∙ de_name-at s off i l

namecmp-other :
    (s : View) (name : Bytes) (off : ℕ)
    → is_int (namecmp name (de_name (de_at s off))) 0 ≡ false
    → ¬ (SameString name (entry_name s off) dirsiz)
unfolding namecmp
namecmp-other s name off e h =
    let z =
      strncmp_complete name (de_name (de_at s off)) dirsiz
        (λ i l pre. h i l pre ∙ sym (de_name-at s off i l)) in
    let t : is_int (strncmp name (de_name (de_at s off)) dirsiz) 0 ≡ true =
      ap (λ (x : ℤ). is_int x 0) z in
    absurd (ground (arith, sym t ∙ e))

from_next :
    (s : View) (name : Bytes) (k : ℕ)
    → ¬ (Matches s name (16 * k))
    → (j : ℕ) → k ≤ j
    → (suc k ≤ j → ¬ (Matches s name (16 * j)))
    → ¬ (Matches s name (16 * j))
from_next s name k h j a g = elim (same_or_not j k) [
  | inl e ↦ (λ m. h (subst (λ (x : ℕ). Matches s name (16 * x)) e m))
  | inr ne ↦ g (omega arith)
]

Lookup-later :
    (s : View) (name : Bytes) (k : ℕ) (r : Run View (Option (ℕ × ℕ)))
    → ¬ (Matches s name (16 * k))
    → Lookup s name (suc k) r
    → Lookup s name k r
unfolding Lookup
Lookup-later s name k (done none t) h (e, f) = (e, λ j a b. from_next s name k h j a (λ c. f j c b))
Lookup-later s name k (done (some (inum, off)) t) h (e, a, b, c, d, f) =
    (e, a, b, c, d, λ j x y. from_next s name k h j x (λ z. f j z y))
Lookup-later s name k sleeps h o = o
Lookup-later s name k panics h o = o

find_entry-Lookup :
    (sb : Super) (dev : Devsw) (name : Bytes) (s : View)
    → IsDir s
    → (m k : ℕ) → s.ip.size ≤ 16 * k + 16 * m
    → Lookup s name k (find_entry sb dev name (16 * k) m s)
unfolding find_entry Lookup
find_entry-Lookup sb dev name s d zero k h = (refl, λ j a b. absurd (omega arith))
find_entry-Lookup sb dev name s d (suc m) k h =
    let next : 16 * k + 16 ≡ 16 * suc k = omega arith in
    let ih =
      subst (λ (x : ℕ). Lookup s name (suc k) (find_entry sb dev name x m s)) (sym next)
        (find_entry-Lookup sb dev name s d m (suc k) (omega arith)) in
    elim (Bool-cases (ltb (16 * k) s.ip.size)) [
      | inr out ↦ simp (out) (refl, λ j a b. absurd (ground arith))
      | inl l ↦
          let r = readi-entry sb dev s k d (ground arith) in
          let de = de_at s (16 * k) in
          let number = de_inum-at s (16 * k) in
          elim (Bool-cases (de_inum de == 0)) [
            | inl z ↦
                simp (l, r, z) (Lookup-later s name k _ (λ m. m.0 (sym number ∙ ground arith)) ih)
            | inr u ↦ elim (Bool-cases (is_int (namecmp name (de_name de)) 0)) [
              | inl y ↦
                  simp (l, r, u, y)
                    (
                      refl,
                      number,
                      ground arith,
                      omega arith,
                      (
                        (λ z. absurd (ground (arith, number ∙ z))),
                        namecmp-Matches s name (16 * k) y,
                      ),
                      λ j a b. absurd (omega arith),
                    )
              | inr n ↦
                  simp (l, r, u, n)
                    (Lookup-later s name k _ (λ m. namecmp-other s name (16 * k) n m.1) ih)
            ]
          ]
    ]

-- `dirlookup` in a directory without holes, of whole entries, returns and changes nothing. It finds the
-- first entry with the name that is in use, with its inode number, or none if no entry in use has the
-- name.
pub find_in_dir-Lookup :
    (sb : Super) (dev : Devsw) (name : Bytes) (s : View)
    → IsDir s
    → Lookup s name 0 (find_in_dir sb dev name s)
unfolding find_in_dir
find_in_dir-Lookup sb dev name s d =
    let t : (s.ip.type == t_dir) ≡ true = (let e = d.type in ground arith) in
    simp (t) (find_entry-Lookup sb dev name s d (suc s.ip.size) 0 (omega arith))

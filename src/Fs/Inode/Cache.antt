-- ===== src/Fs/Inode/Cache.antt =====
-- fs.c: `iget` and the inode cache.
use operating_systems_assign.Fs.File.Mapping.{same_or_not}
use operating_systems_assign.Kernel.{Run, done, panics, sleeps}
use operating_systems_assign.Base.{
  Bool, Bool-cases, List, Option, [], arith, false, get_or, inl, inr, length, ltb, none, refl, some,
  suc, true, ℕ, ◌&&◌, ◌+◌, ◌<◌, ◌==◌, ◌∷◌, ◌≡◌, ◌⊎◌, zero, ◌≢◌, ap, get_or-set_ne, get_or-set_self,
  length-set, sym, ◌∙◌,
}
use operating_systems_assign.Fs.Inode.{
  Icache, Seen, Slot, cached, find_inode, first_of, missing, no_slot, slot_at, iget, take_seen,
  put_slot,
}

-- the entry is in use for the inode `inum` of the device `dev`
abbrev pub is_for : ℕ → ℕ → Slot → Bool
is_for dev inum e = ltb 0 e.ref && e.dev == dev && e.ip.inum == inum

-- No two entries in use are for the same inode.
abbrev pub Distinct : Icache → Type 0
Distinct s =
    (dev inum i j : ℕ)
    → i < length s.inodes
    → j < length s.inodes
    → is_for dev inum (slot_at s i) ≡ true
    → is_for dev inum (slot_at s j) ≡ true
    → i ≡ j

-- What the loop of `iget` finds from the entry `i` on, with `empty` found before.
FindInode : ℕ → ℕ → ℕ → Option ℕ → List Slot → Seen → Type 0
FindInode dev inum i empty es (cached k) =
    (j : ℕ) × (k ≡ i + j) × (j < length es) × (is_for dev inum (get_or es j no_slot) ≡ true)
FindInode dev inum i empty es (missing (some k)) =
    ((j : ℕ) → j < length es → is_for dev inum (get_or es j no_slot) ≡ false)
    × ((empty ≡ some k)
        ⊎ ((j : ℕ) × (k ≡ i + j) × (j < length es) × ((get_or es j no_slot).ref ≡ 0)))
FindInode dev inum i empty es (missing none) =
    (empty ≡ none) × ((j : ℕ) → j < length es → 0 < (get_or es j no_slot).ref)

cons_all :
    (P : Slot → Type 0) (e : Slot) (es : List Slot)
    → P e
    → ((j : ℕ) → j < length es → P (get_or es j no_slot))
    → (j : ℕ) → j < suc (length es)
    → P (get_or (e ∷ es) j no_slot)
cons_all P e es h t zero l = h
cons_all P e es h t (suc j) l = t j (omega arith)

-- an entry that counts as empty, or one that was found before
first_of-cases :
    (empty : Option ℕ) (i k r : ℕ)
    → first_of empty i (r == 0) ≡ some k
    → (empty ≡ some k) ⊎ ((k ≡ i) × (r ≡ 0))
first_of-cases (some m) i k r e = inl e
first_of-cases none i k r e = elim (Bool-cases (r == 0)) [
  | inl z ↦ inr (ground (arith, e, z), ground arith)
  | inr z ↦ absurd (ground (arith, e, z))
]

first_of-none :
    (empty : Option ℕ) (i r : ℕ) → first_of empty i (r == 0) ≡ none → (empty ≡ none) × (0 < r)
first_of-none (some m) i r e = absurd (ground (arith, e))
first_of-none none i r e = elim (Bool-cases (r == 0)) [
  | inl z ↦ absurd (ground (arith, e, z))
  | inr z ↦ (refl, ground arith)
]

FindInode-later :
    (dev inum i : ℕ) (empty : Option ℕ) (e : Slot) (es : List Slot) (r : Seen)
    → is_for dev inum e ≡ false
    → FindInode dev inum (suc i) (first_of empty i (e.ref == 0)) es r
    → FindInode dev inum i empty (e ∷ es) r
unfolding FindInode
FindInode-later dev inum i empty e es (cached k) n (j, a, b, c) =
    (suc j, omega arith, omega arith, c)
FindInode-later dev inum i empty e es (missing (some k)) n (h, o) = (
  cons_all (λ x. is_for dev inum x ≡ false) e es n h,
  elim o [
    | inl q ↦ elim (first_of-cases empty i k e.ref q) [
      | inl x ↦ inl x
      | inr (x, y) ↦ inr (0, omega arith, omega arith, y)
    ]
    | inr (j, a, b, c) ↦ inr (suc j, omega arith, omega arith, c)
  ],
)
FindInode-later dev inum i empty e es (missing none) n (q, h) =
    let (x, y) = first_of-none empty i e.ref q in (x, cons_all (λ x. 0 < x.ref) e es y h)

find_inode-FindInode :
    (dev inum i : ℕ) (empty : Option ℕ) (es : List Slot)
    → FindInode dev inum i empty es (find_inode dev inum i empty es)
unfolding find_inode FindInode
find_inode-FindInode dev inum i none [] = (refl, λ j l. absurd (omega arith))
find_inode-FindInode dev inum i (some k) [] = ((λ j l. absurd (omega arith)), inl refl)
find_inode-FindInode dev inum i empty (e ∷ es) =
    let ih = find_inode-FindInode dev inum (suc i) (first_of empty i (e.ref == 0)) es in
    elim (Bool-cases (is_for dev inum e)) [
      | inl y ↦ simp (y) (0, omega arith, omega arith, y)
      | inr n ↦ simp (n) (FindInode-later dev inum i empty e es _ n ih)
    ]

-- What `iget` comes to: the entry `i` is for the inode and has one reference more; each other entry in
-- use stays as it is, and each inode is in the cache at most once.
pub record Got (dev inum : ℕ) (s : Icache) (i : ℕ) (t : Icache) : Type 0 where
  pub in_cache : i < length t.inodes
  pub found : is_for dev inum (slot_at t i) ≡ true
  pub others : (j : ℕ) → j ≢ i → slot_at t j ≡ slot_at s j
  pub counted : (slot_at t i).ref ≡ suc (slot_at s i).ref
  pub distinct : Distinct t
  pub same_disk : t.disk ≡ s.disk

-- what `iget` is to give: an entry, or a panic when every entry is in use
abbrev pub GetOutcome : ℕ → ℕ → Icache → Run Icache ℕ → Type 0
GetOutcome dev inum s (done i t) = Got dev inum s i t
GetOutcome dev inum s sleeps = ⊥
GetOutcome dev inum s panics = (j : ℕ) → j < length s.inodes → 0 < (slot_at s j).ref

-- an entry is for one inode
is_for_unique :
    (d n d2 n2 : ℕ) (e : Slot) → is_for d n e ≡ true → is_for d2 n2 e ≡ true → (d ≡ d2) × (n ≡ n2)
is_for_unique d n d2 n2 e a b = (ground arith, ground arith)

module _ (dev inum : ℕ) (s : Icache) (k : ℕ) (l : k < length s.inodes) (h : Distinct s) (e : Slot)
    (y : is_for dev inum e ≡ true)
    (other : (j : ℕ) → j < length s.inodes → j ≢ k → is_for dev inum (slot_at s j) ≡ false) where
  put_at : slot_at (put_slot k e s) k ≡ e
  put_at = get_or-set_self s.inodes k e no_slot l

  put_off : (j : ℕ) → j ≢ k → slot_at (put_slot k e s) j ≡ slot_at s j
  put_off j ne = get_or-set_ne s.inodes k j e no_slot (λ q. ne (sym q))

  clash :
      (d n j : ℕ)
      → j < length s.inodes
      → j ≢ k
      → is_for d n (slot_at (put_slot k e s) k) ≡ true
      → is_for d n (slot_at (put_slot k e s) j) ≡ true
      → ⊥
  clash d n j m ne a b =
      let (p, q) = is_for_unique d n dev inum e (ap (is_for d n) (sym put_at) ∙ a) y in
      let b' : is_for dev inum (slot_at s j) ≡ true =
        ap (λ (x : ℕ). is_for x inum (slot_at s j)) (sym p)
        ∙ ap (λ (x : ℕ). is_for d x (slot_at s j)) (sym q)
        ∙ ap (is_for d n) (sym (put_off j ne))
        ∙ b in
      let f = other j m ne in absurd (ground (arith, b', f))

  put-Distinct : Distinct (put_slot k e s)
  put-Distinct d n i j a b p q =
      let len = length-set s.inodes k e in
      elim (same_or_not i k) [
        | inl x ↦ elim (same_or_not j k) [
          | inl z ↦ x ∙ sym z
          | inr z ↦ absurd (
              clash d n j (omega arith) z
                (ap (λ (c : ℕ). is_for d n (slot_at (put_slot k e s) c)) (sym x) ∙ p) q)
        ]
        | inr x ↦ elim (same_or_not j k) [
          | inl z ↦ absurd (
              clash d n i (omega arith) x
                (ap (λ (c : ℕ). is_for d n (slot_at (put_slot k e s) c)) (sym z) ∙ q) p)
          | inr z ↦
              h d n i j (omega arith) (omega arith) (ap (is_for d n) (sym (put_off i x)) ∙ p)
                (ap (is_for d n) (sym (put_off j z)) ∙ q)
        ]
      ]

  put-Got : e.ref ≡ suc (slot_at s k).ref → Got dev inum s k (put_slot k e s)
  put-Got r =
      let len = length-set s.inodes k e in
      record {
        in_cache = omega arith;
        found = ap (is_for dev inum) put_at ∙ y;
        others = put_off;
        counted = ap (λ (x : Slot). x.ref) put_at ∙ r;
        distinct = put-Distinct;
        same_disk = refl;
      }

take_seen-GetOutcome :
    (dev inum : ℕ) (s : Icache) (r : Seen)
    → Distinct s
    → FindInode dev inum 0 none s.inodes r
    → GetOutcome dev inum s (take_seen dev inum s r)
unfolding FindInode
take_seen-GetOutcome dev inum s (cached k) h (j, a, b, c) =
    let q : j ≡ k = omega arith in
    let c' : is_for dev inum (slot_at s k) ≡ true =
      ap (λ (x : ℕ). is_for dev inum (slot_at s x)) (sym q) ∙ c in
    let e = slot_at s k in
    put-Got dev inum s k (omega arith) h (record e { ref = e.ref + 1 }) (ground (arith, c'))
      (λ i m ne. elim (Bool-cases (is_for dev inum (slot_at s i))) [
        | inl y ↦ absurd (ne (h dev inum i k m (omega arith) y c'))
        | inr y ↦ y
      ])
      (omega arith)
take_seen-GetOutcome dev inum s (missing none) h (_, f) = f
take_seen-GetOutcome dev inum s (missing (some k)) h (other, inl q) = absurd (ground (arith, q))
take_seen-GetOutcome dev inum s (missing (some k)) h (other, inr (j, a, b, c)) =
    let q : j ≡ k = omega arith in
    let z : (slot_at s k).ref ≡ 0 = ap (λ (x : ℕ). (slot_at s x).ref) (sym q) ∙ c in
    let e = slot_at s k in
    put-Got dev inum s k (omega arith) h
      (record e { dev = dev; ip = record e.ip { inum = inum }; ref = 1; valid = false })
      (ground arith) (λ i m _. other i m) (omega arith)

-- In a cache that has no inode twice, `iget` gives an entry for the inode with one reference more, and
-- the cache has no inode twice again. It panics only if every entry is in use.
pub iget-GetOutcome :
    (dev inum : ℕ) (s : Icache) → Distinct s → GetOutcome dev inum s (iget dev inum s)
unfolding iget
iget-GetOutcome dev inum s h =
    take_seen-GetOutcome dev inum s _ h (find_inode-FindInode dev inum 0 none s.inodes)

-- ===== src/Bcache/Copies.antt =====
-- bio.c: how many buffers are for a block.
use operating_systems_assign.Fs.File.Mapping.{same_or_not}
use operating_systems_assign.Kernel.{Run, done, panics, sleeps}
use operating_systems_assign.Base.{
  Bool-cases, List, Option, [], ap, arith, false, if◌then◌else◌, inl, inr, none, refl, some, suc, ℕ,
  ◌&&◌, ◌+◌, ◌==◌, ◌∷◌, ◌≡◌, ◌≤◌, All, sym, ◌∙◌,
}
use operating_systems_assign.Bcache.Taken.{Taken, TakenRun, bget_buf-TakenRun}
use operating_systems_assign.Bcache.{
  Buf, behind, find_cached, holds_block, may_recycle, recycle_last, bget_buf, recycle, take_cached,
  take_recycled,
}

-- how many buffers are for the block
unfoldable pub copies : ℕ → ℕ → List Buf → ℕ
copies dev blockno [] = 0
copies dev blockno (b ∷ bs) =
    if holds_block dev blockno b then suc (copies dev blockno bs) else copies dev blockno bs

-- 1 for the block itself, 0 for any other
abbrev one_for : ℕ → ℕ → ℕ → ℕ → ℕ
one_for dev blockno d x = if dev == d && blockno == x then 1 else 0

FindCached : ℕ → ℕ → List Buf → Option (List Buf × ℕ) → Type 0
FindCached dev blockno bs none = copies dev blockno bs ≡ 0
FindCached dev blockno bs (some (cs, slot)) =
    (1 ≤ copies dev blockno cs) × ((d x : ℕ) → copies d x cs ≡ copies d x bs)

FindCached-behind :
    (dev blockno : ℕ) (b : Buf) (bs : List Buf) (o : Option (List Buf × ℕ))
    → holds_block dev blockno b ≡ false
    → FindCached dev blockno bs o
    → FindCached dev blockno (b ∷ bs) (behind b o)
unfolding FindCached copies
FindCached-behind dev blockno b bs none h f = simp (h) f
FindCached-behind dev blockno b bs (some (cs, slot)) h (f, g) =
    (simp (h) f, λ d x. ap (λ (n : ℕ). if holds_block d x b then suc n else n) (g d x))

find_cached-FindCached :
    (dev blockno : ℕ) (bs : List Buf) → FindCached dev blockno bs (find_cached dev blockno bs)
unfolding find_cached FindCached copies
find_cached-FindCached dev blockno [] = refl
find_cached-FindCached dev blockno (b ∷ bs) =
    let ih = find_cached-FindCached dev blockno bs in
    elim (Bool-cases (holds_block dev blockno b)) [
      | inl y ↦ simp (y) (omega arith, λ d x. refl)
      | inr n ↦ simp (n) (FindCached-behind dev blockno b bs _ n ih)
    ]

-- the list `cs` is `bs` with one unused buffer taken for the block
Recycled : ℕ → ℕ → List Buf → Option (List Buf × ℕ) → Type 0
Recycled dev blockno bs none = All (λ b. may_recycle b ≡ false) bs
Recycled dev blockno bs (some (cs, slot)) =
    (1 ≤ copies dev blockno cs)
    × ((d x : ℕ) → copies d x cs ≤ copies d x bs + one_for dev blockno d x)

recycle_last-Recycled :
    (dev blockno : ℕ) (b : Buf) (bs : List Buf) (o : Option (List Buf × ℕ))
    → Recycled dev blockno bs o
    → Recycled dev blockno (b ∷ bs) (recycle_last dev blockno b bs o)
unfolding Recycled copies
recycle_last-Recycled dev blockno b bs (some (cs, slot)) (f, g) =
    (ground (arith, f), λ d x. let l = g d x in ground (arith, l))
recycle_last-Recycled dev blockno b bs none f = elim (Bool-cases (may_recycle b)) [
  | inl y ↦ simp (y) (ground arith, λ d x. ground arith)
  | inr n ↦ simp (n) (refl, f)
]

recycle-Recycled :
    (dev blockno : ℕ) (bs : List Buf) → Recycled dev blockno bs (recycle dev blockno bs)
unfolding recycle Recycled
recycle-Recycled dev blockno [] = tt
recycle-Recycled dev blockno (b ∷ bs) =
    recycle_last-Recycled dev blockno b bs _ (recycle-Recycled dev blockno bs)

-- No block has two buffers. The device 0 stands for the buffers that were never used.
abbrev pub IsSingle : List Buf → Type 0
IsSingle bs = (d x : ℕ) → 1 ≤ d → copies d x bs ≤ 1

abbrev CopiesOutcome : ℕ → ℕ → List Buf → Run (List Buf) ℕ → Type 0
CopiesOutcome dev blockno bs (done slot cs) = IsSingle cs × (copies dev blockno cs ≡ 1)
CopiesOutcome dev blockno bs sleeps = ⊥
CopiesOutcome dev blockno bs panics = All (λ b. may_recycle b ≡ false) bs

Recycled-CopiesOutcome :
    (dev blockno : ℕ) (bs : List Buf) (o : Option (List Buf × ℕ))
    → 1 ≤ dev
    → IsSingle bs
    → copies dev blockno bs ≡ 0
    → Recycled dev blockno bs o
    → CopiesOutcome dev blockno bs (take_recycled o)
unfolding Recycled
Recycled-CopiesOutcome dev blockno bs none l h z r = r
Recycled-CopiesOutcome dev blockno bs (some (cs, slot)) l h z (f, g) =
    let single : IsSingle cs = (λ d x m.
      let a = g d x in
      let c = h d x m in
      elim (same_or_not dev d) [
        | inl e ↦ elim (same_or_not blockno x) [
          | inl e2 ↦
              let z' : copies d x bs ≡ 0 =
                ap (λ (y : ℕ). copies y x bs) (sym e)
                ∙ ap (λ (y : ℕ). copies dev y bs) (sym e2)
                ∙ z in
              ground (arith, a, z')
          | inr o ↦ ground (arith, a, c, o)
        ]
        | inr o ↦ ground (arith, a, c, o)
      ]) in
    (single, (let k = single dev blockno l in omega arith))

FindCached-CopiesOutcome :
    (dev blockno : ℕ) (bs : List Buf) (o : Option (List Buf × ℕ))
    → 1 ≤ dev
    → IsSingle bs
    → FindCached dev blockno bs o
    → CopiesOutcome dev blockno bs (take_cached o (take_recycled (recycle dev blockno bs)))
unfolding FindCached
FindCached-CopiesOutcome dev blockno bs none l h z =
    Recycled-CopiesOutcome dev blockno bs _ l h z (recycle-Recycled dev blockno bs)
FindCached-CopiesOutcome dev blockno bs (some (cs, slot)) l h (f, g) =
    let single : IsSingle cs = (λ d x m. let a = g d x in let c = h d x m in omega arith) in
    (single, (let k = single dev blockno l in omega arith))

bget_buf-CopiesOutcome :
    (dev blockno : ℕ) (bs : List Buf)
    → 1 ≤ dev
    → IsSingle bs
    → CopiesOutcome dev blockno bs (bget_buf dev blockno bs)
unfolding bget_buf
bget_buf-CopiesOutcome dev blockno bs l h =
    FindCached-CopiesOutcome dev blockno bs _ l h (find_cached-FindCached dev blockno bs)

-- What `bget` is to come to under its lock: the buffer `slot` is the block's, alone, and has the new
-- reference.
abbrev pub BufOutcome : ℕ → ℕ → List Buf → Run (List Buf) ℕ → Type 0
BufOutcome dev blockno bs (done slot cs) =
    IsSingle cs × (copies dev blockno cs ≡ 1) × Taken dev blockno bs cs slot
BufOutcome dev blockno bs sleeps = ⊥
BufOutcome dev blockno bs panics = All (λ b. may_recycle b ≡ false) bs

both-BufOutcome :
    (dev blockno : ℕ) (bs : List Buf) (r : Run (List Buf) ℕ)
    → CopiesOutcome dev blockno bs r
    → TakenRun dev blockno bs r
    → BufOutcome dev blockno bs r
both-BufOutcome dev blockno bs (done slot cs) c t = (c.0, c.1, t)
both-BufOutcome dev blockno bs sleeps c t = c
both-BufOutcome dev blockno bs panics c t = c

-- In a cache where no block of a device from 1 on has two buffers, `bget` gives the place of the one
-- buffer of the block, and no block comes to have two. This buffer was the block's and has one
-- reference more, or was clean and without references and has one now; the others stay. `bget` panics
-- only if each buffer is in use or dirty.
pub bget_buf-BufOutcome :
    (dev blockno : ℕ) (bs : List Buf)
    → 1 ≤ dev
    → IsSingle bs
    → BufOutcome dev blockno bs (bget_buf dev blockno bs)
bget_buf-BufOutcome dev blockno bs l h =
    both-BufOutcome dev blockno bs (bget_buf dev blockno bs)
      (bget_buf-CopiesOutcome dev blockno bs l h) (bget_buf-TakenRun dev blockno bs)

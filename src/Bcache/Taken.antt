-- ===== src/Bcache/Taken.antt =====
-- bio.c: which buffer `bget` gives, and what it does to it.
use operating_systems_assign.Base.{
  Bool-cases, List, Option, [], ap, false, inl, inr, none, refl, some, true, ℕ, ◌%◌, ◌+◌, ◌++◌, ◌∷◌,
  ◌≡◌, ◌⊎◌,
}
use operating_systems_assign.Kernel.{Run, done, panics, sleeps}
use operating_systems_assign.Bcache.{
  Buf, behind, bget_buf, find_cached, holds_block, may_recycle, recycle, recycle_last, take_cached,
  take_recycled,
}

-- The buffer `a` becomes `b`: it is the block's and has one reference more, or nobody uses it and it
-- is the block's now, with one reference and nothing read yet.
abbrev pub Change : ℕ → ℕ → Buf → Buf → Type 0
Change dev blockno a b =
    ((holds_block dev blockno a ≡ true) × (b ≡ record a { refcnt = (a.refcnt + 1) % 4294967296 }))
    ⊎ ((may_recycle a ≡ true)
        × (b ≡ record a { dev = dev; blockno = blockno; valid = false; dirty = false; refcnt = 1 }))

-- The buffer `slot` alone is changed from the list `bs` to `cs`.
pub record Taken (dev blockno : ℕ) (bs cs : List Buf) (slot : ℕ) : Type 0 where
  pub ahead : List Buf
  pub rest : List Buf
  pub old : Buf
  pub given : Buf
  pub before : bs ≡ ahead ++ old ∷ rest
  pub after : cs ≡ ahead ++ given ∷ rest
  pub place : given.slot ≡ slot
  pub change : Change dev blockno old given

module _ (dev blockno : ℕ) where
  Taken-behind :
      (b : Buf) (bs cs : List Buf) (slot : ℕ)
      → Taken dev blockno bs cs slot
      → Taken dev blockno (b ∷ bs) (b ∷ cs) slot
  Taken-behind b bs cs slot t = record {
    ahead = b ∷ t.ahead;
    rest = t.rest;
    old = t.old;
    given = t.given;
    before = ap (λ (l : List Buf). b ∷ l) t.before;
    after = ap (λ (l : List Buf). b ∷ l) t.after;
    place = t.place;
    change = t.change;
  }

  TakenIf : List Buf → Option (List Buf × ℕ) → Type 0
  TakenIf bs none = Unit
  TakenIf bs (some (cs, slot)) = Taken dev blockno bs cs slot

  TakenIf-behind :
      (b : Buf) (bs : List Buf) (o : Option (List Buf × ℕ))
      → TakenIf bs o
      → TakenIf (b ∷ bs) (behind b o)
  unfolding TakenIf
  TakenIf-behind b bs none h = tt
  TakenIf-behind b bs (some (cs, slot)) h = Taken-behind b bs cs slot h

  find_cached-TakenIf : (bs : List Buf) → TakenIf bs (find_cached dev blockno bs)
  unfolding find_cached TakenIf
  find_cached-TakenIf [] = tt
  find_cached-TakenIf (b ∷ bs) =
      let ih = find_cached-TakenIf bs in
      elim (Bool-cases (holds_block dev blockno b)) [
        | inl y ↦ simp (y) (record {
          ahead = [];
          rest = bs;
          old = b;
          given = record b { refcnt = (b.refcnt + 1) % 4294967296 };
          before = refl;
          after = refl;
          place = refl;
          change = inl (y, refl);
        })
        | inr n ↦ simp (n) (TakenIf-behind b bs _ ih)
      ]

  recycle_last-TakenIf :
      (b : Buf) (bs : List Buf) (o : Option (List Buf × ℕ))
      → TakenIf bs o
      → TakenIf (b ∷ bs) (recycle_last dev blockno b bs o)
  unfolding TakenIf
  recycle_last-TakenIf b bs (some (cs, slot)) h = Taken-behind b bs cs slot h
  recycle_last-TakenIf b bs none h = elim (Bool-cases (may_recycle b)) [
    | inl y ↦ simp (y) (record {
      ahead = [];
      rest = bs;
      old = b;
      given = record b { dev = dev; blockno = blockno; valid = false; dirty = false; refcnt = 1 };
      before = refl;
      after = refl;
      place = refl;
      change = inr (y, refl);
    })
    | inr n ↦ simp (n) tt
  ]

  recycle-TakenIf : (bs : List Buf) → TakenIf bs (recycle dev blockno bs)
  unfolding recycle TakenIf
  recycle-TakenIf [] = tt
  recycle-TakenIf (b ∷ bs) = recycle_last-TakenIf b bs _ (recycle-TakenIf bs)

  abbrev pub TakenRun : List Buf → Run (List Buf) ℕ → Type 0
  TakenRun bs (done slot cs) = Taken dev blockno bs cs slot
  TakenRun bs sleeps = Unit
  TakenRun bs panics = Unit

  take-TakenRun :
      (bs : List Buf) (o p : Option (List Buf × ℕ))
      → TakenIf bs o
      → TakenIf bs p
      → TakenRun bs (take_cached o (take_recycled p))
  unfolding TakenIf
  take-TakenRun bs (some (cs, slot)) p h k = h
  take-TakenRun bs none (some (cs, slot)) h k = k
  take-TakenRun bs none none h k = tt

  pub bget_buf-TakenRun : (bs : List Buf) → TakenRun bs (bget_buf dev blockno bs)
  unfolding bget_buf
  bget_buf-TakenRun bs =
      take-TakenRun bs (find_cached dev blockno bs) (recycle dev blockno bs)
        (find_cached-TakenIf bs) (recycle-TakenIf bs)

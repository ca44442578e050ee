-- ===== src/Proc/Scan.antt =====
-- proc.c: what the loops over the process table find and change.
use operating_systems_assign.Base.{
  Bool, Bool-cases, arith, false, if◌then◌else◌, inl, inr, ltb, none, some, suc, true, zero, ℕ,
  ◌&&◌, ◌+◌, ◌<◌, ◌==◌, ◌∙◌, ◌≡◌, ◌≤◌,
}
use operating_systems_assign.Proc.{
  Chan, Proc, find_from, is_unused, is_zombie, nproc, parent_is, update,
}
use operating_systems_assign.Proc.Ops.{wakeup1, woken}
use operating_systems_assign.Proc.Exit.{adopt, adopt_all}
use operating_systems_assign.Proc.Inv.{Quiet, Quiet-refl, live, settled, waits}

-- The index found is the first that passes the test.
pub find_from-some :
    (test : Proc → Bool) (f : ℕ → Proc) (i n k : ℕ)
    → find_from test f i n ≡ some k
    → (i ≤ k) × (k < i + n) × (test (f k) ≡ true) × ((j : ℕ) → i ≤ j → j < k → test (f j) ≡ false)
unfolding find_from
find_from-some test f i zero k e = cc
find_from-some test f i (suc n) k e = elim (Bool-cases (test (f i))) [
  | inl t ↦
      let ik : i ≡ k = ground arith in
      (omega arith, omega arith, rw (← ik) t, λ j a b. absurd (omega arith))
  | inr t ↦
      let (a, b, c, d) = find_from-some test f (suc i) n k (ground arith) in
      (omega arith, omega arith, c, λ j lo hi. first_or test f i j t lo (λ l. d j l hi))
]
  where
    first_or :
        (test : Proc → Bool) (f : ℕ → Proc) (i j : ℕ)
        → test (f i) ≡ false
        → i ≤ j
        → (suc i ≤ j → test (f j) ≡ false)
        → test (f j) ≡ false
    first_or test f i j t lo later = elim (Bool-cases (i == j)) [
      | inl e ↦ (let q : i ≡ j = ground arith in rw (← q) t)
      | inr e ↦ later (ground arith)
    ]

-- Nothing found: no process passes the test.
pub find_from-none :
    (test : Proc → Bool) (f : ℕ → Proc) (i n : ℕ)
    → find_from test f i n ≡ none
    → (j : ℕ) → i ≤ j
    → j < i + n
    → test (f j) ≡ false
unfolding find_from
find_from-none test f i zero e j a b = absurd (omega arith)
find_from-none test f i (suc n) e j a b = elim (Bool-cases (i == j)) [
  | inl s ↦ (let q : i ≡ j = ground arith in rw (← q) (ground arith))
  | inr s ↦ find_from-none test f (suc i) n (ground arith) j (ground arith) (omega arith)
]

pub woken-Quiet : (c : Chan) (i : ℕ) (p : Proc) → Quiet i p (woken c p)
woken-Quiet c i p = record {
  parent = ground arith;
  pid = ground arith;
  zombie = ground arith;
  settles = ground arith;
  lives = ground arith;
  used = ground arith;
  awaits = λ h. ground arith;
}

pub wakeup1-Quiet : (c : Chan) (f : ℕ → Proc) (i : ℕ) → Quiet i (f i) (wakeup1 c f i)
unfolding wakeup1
wakeup1-Quiet c f i = elim (Bool-cases (ltb i nproc)) [
  | inl h ↦ simp h (woken-Quiet c i (f i))
  | inr h ↦ simp h (Quiet-refl i (f i))
]

-- Who is woken no longer sleeps in `wait`.
pub wakeup1-awake :
    (p : ℕ) (f : ℕ → Proc) → p < nproc → waits p (wakeup1 (Chan.on_proc p) f p) ≡ false
unfolding wakeup1
wakeup1-awake p f h = ground arith

-- What the loop of `exit` has made of the table `f` when it has passed the indices below `k`.
pub record Adopted (cur init k : ℕ) (f g : ℕ → Proc) : Type 0 where
  pub parents :
      (c : ℕ)
      → (g c).parent ≡ (if ltb c k && parent_is (f c).parent cur then some init else (f c).parent)
  pub pid : (c : ℕ) → (g c).pid ≡ (f c).pid
  pub zombie : (c : ℕ) → is_zombie (g c).state ≡ is_zombie (f c).state
  pub settles : (c : ℕ) → settled (g c).state ≡ settled (f c).state
  pub lives : (c : ℕ) → live (g c).state ≡ live (f c).state
  pub used : (c : ℕ) → is_unused (g c).state ≡ is_unused (f c).state
  pub awaits : (c : ℕ) → waits c (g c) ≡ true → waits c (f c) ≡ true

-- Init has been woken, if it was asleep in `wait`, for the zombies passed to it below `k`.
abbrev pub Told : ℕ → ℕ → ℕ → (ℕ → Proc) → (ℕ → Proc) → Type 0
Told cur init k f g =
    (c : ℕ)
    → c < k
    → parent_is (f c).parent cur ≡ true
    → is_zombie (f c).state ≡ true
    → waits init (g init) ≡ false

-- quiet changes after the loop's
Adopted-Quiet :
    (cur init k : ℕ) (f g h : ℕ → Proc)
    → Adopted cur init k f g
    → ((i : ℕ) → Quiet i (g i) (h i))
    → Adopted cur init k f h
Adopted-Quiet cur init k f g h a q = record {
  parents = λ c. (q c).parent ∙ a.parents c;
  pid = λ c. (q c).pid ∙ a.pid c;
  zombie = λ c. (q c).zombie ∙ a.zombie c;
  settles = λ c. (q c).settles ∙ a.settles c;
  lives = λ c. (q c).lives ∙ a.lives c;
  used = λ c. (q c).used ∙ a.used c;
  awaits = λ c w. a.awaits c ((q c).awaits w);
}

not_awaits : {a b : Bool} → (a ≡ true → b ≡ true) → b ≡ false → a ≡ false
not_awaits {a} {b} h e = ground arith

Told-Quiet :
    (cur init k : ℕ) (f g h : ℕ → Proc)
    → Told cur init k f g
    → ((i : ℕ) → Quiet i (g i) (h i))
    → Told cur init k f h
Told-Quiet cur init k f g h a q c l e z = not_awaits (q init).awaits (a c l e z)

module _ (cur init : ℕ) (hi : init < nproc) (k : ℕ) (f g : ℕ → Proc)
    (a : Adopted cur init k f g) where
  passed : ℕ → Proc
  passed = update g k (record (g k) { parent = some init })

  -- The child at `k` is passed to init.
  passed-Adopted : parent_is (f k).parent cur ≡ true → Adopted cur init (suc k) f passed
  unfolding passed
  passed-Adopted e = record {
    parents = λ c. ground (arith, a.parents c);
    pid = λ c. ground (arith, a.pid c);
    zombie = λ c. ground (arith, a.zombie c);
    settles = λ c. ground (arith, a.settles c);
    lives = λ c. ground (arith, a.lives c);
    used = λ c. ground (arith, a.used c);
    awaits = λ c w. ground (arith, a.awaits c);
  }

  kept-Adopted : parent_is (f k).parent cur ≡ false → Adopted cur init (suc k) f g
  kept-Adopted e = record {
    parents = λ c. ground (arith, a.parents c);
    pid = a.pid;
    zombie = a.zombie;
    settles = a.settles;
    lives = a.lives;
    used = a.used;
    awaits = a.awaits;
  }

  same_parent : parent_is (g k).parent cur ≡ parent_is (f k).parent cur
  same_parent = ground (arith, a.parents k)

  adopt-Adopted :
      Told cur init k f g
      → Adopted cur init (suc k) f (adopt cur init k g)
        × Told cur init (suc k) f (adopt cur init k g)
  unfolding passed
  adopt-Adopted t = elim (Bool-cases (parent_is (f k).parent cur)) [
    | inl e ↦
        let e' : parent_is (g k).parent cur ≡ true = same_parent ∙ e in
        elim (Bool-cases (is_zombie (g k).state)) [
          | inl z ↦
              simp (e', z)
                (
                  Adopted-Quiet cur init (suc k) f passed (wakeup1 (Chan.on_proc init) passed)
                      (passed-Adopted e) (wakeup1-Quiet (Chan.on_proc init) passed),
                  λ c l p y. wakeup1-awake init passed hi,
                )
          | inr z ↦ simp (e', z) (passed-Adopted e, λ c l p y. ground (arith, t c, a.zombie c))
        ]
    | inr e ↦
        let e' : parent_is (g k).parent cur ≡ false = same_parent ∙ e in
        simp e' (kept-Adopted e, λ c l p y. ground (arith, t c))
  ]

module _ (cur init : ℕ) (hi : init < nproc) where
  pub adopt_all-Adopted :
      (n k : ℕ) (f g : ℕ → Proc)
      → Adopted cur init k f g
      → Told cur init k f g
      → Adopted cur init (n + k) f (adopt_all cur init k n g)
        × Told cur init (n + k) f (adopt_all cur init k n g)
  unfolding adopt_all
  adopt_all-Adopted zero k f g a t = let e : 0 + k ≡ k = omega arith in rw e (a, t)
  adopt_all-Adopted (suc n) k f g a t =
      let e : suc n + k ≡ n + suc k = omega arith in
      let (a', t') = adopt-Adopted cur init hi k f g a t in
      rw e (adopt_all-Adopted n (suc k) f (adopt cur init k g) a' t')

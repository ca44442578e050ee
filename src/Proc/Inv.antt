-- ===== src/Proc/Inv.antt =====
-- proc.c: the invariant of the process table, over the table as a function, and the single changes
-- that keep it.
use mathlib.Core.Path.{subst}
use operating_systems_assign.Base.{
  Bool, Bool-cases, Option, ap, arith, false, inl, inr, ltb, none, refl, some, sym, true, ℕ, ◌&&◌,
  ◌<◌, ◌==◌, ◌∙◌, ◌≡◌, ◌≢◌,
}
use operating_systems_assign.Proc.{
  Chan, Proc, ProcState, is_sleeping, is_unused, is_zombie, nproc, parent_is, same_chan, update,
}

-- the states of a process that has a parent to be waited for by
abbrev pub settled : ProcState → Bool
settled ProcState.unused = false
settled ProcState.embryo = false
settled _ = true

-- the states of a process that can still run, and so can wait
abbrev pub live : ProcState → Bool
live ProcState.sleeping = true
live ProcState.runnable = true
live ProcState.running = true
live _ = false

-- the process `i`, described by `p`, sleeps in `wait`
abbrev pub waits : ℕ → Proc → Bool
waits i p = is_sleeping p.state && same_chan p.chan (Chan.on_proc i)

abbrev pub live_at : (ℕ → Proc) → Option ℕ → Bool
live_at f none = false
live_at f (some q) = ltb q nproc && live (f q).state

-- No process that sleeps in `wait` has a zombie child; every process but init that is past its
-- creation has a parent that can still wait for it, which is not itself; init can run and has no
-- parent.
pub record TableInv (f : ℕ → Proc) (init : ℕ) : Type 0 where
  pub waiting :
      (p c : ℕ)
      → p < nproc
      → c < nproc
      → waits p (f p) ≡ true
      → parent_is (f c).parent p ≡ true
      → is_zombie (f c).state ≡ false
  pub parented :
      (c : ℕ) → c < nproc → c ≢ init → settled (f c).state ≡ true → live_at f (f c).parent ≡ true
  pub init_in : init < nproc
  pub init_live : live (f init).state ≡ true
  pub no_self : (c : ℕ) → c < nproc → parent_is (f c).parent c ≡ false
  pub init_root : (f init).parent ≡ none

-- A change of the process `i` that the invariant does not see: it may run or sleep, but not start to
-- sleep in `wait`.
pub record Quiet (i : ℕ) (p q : Proc) : Type 0 where
  pub parent : q.parent ≡ p.parent
  pub pid : q.pid ≡ p.pid
  pub zombie : is_zombie q.state ≡ is_zombie p.state
  pub settles : settled q.state ≡ settled p.state
  pub lives : live q.state ≡ live p.state
  pub used : is_unused q.state ≡ is_unused p.state
  pub awaits : waits i q ≡ true → waits i p ≡ true

pub live_at-eq :
    (f g : ℕ → Proc) (o : Option ℕ)
    → ((i : ℕ) → live (g i).state ≡ live (f i).state)
    → live_at g o ≡ live_at f o
live_at-eq f g none h = refl
live_at-eq f g (some q) h = rw (h q)

module _ (f g : ℕ → Proc) (init : ℕ) (v : TableInv f init) where
  pub Quiet-TableInv : ((i : ℕ) → Quiet i (f i) (g i)) → TableInv g init
  Quiet-TableInv q = record {
    waiting = λ p c hp hc w e.
        (q c).zombie
        ∙ v.waiting p c hp hc ((q p).awaits w) (ap (λ o. parent_is o p) (sym (q c).parent) ∙ e);
    parented = λ c hc ne st.
        ap (live_at g) (q c).parent
        ∙ live_at-eq f g (f c).parent (λ i. (q i).lives)
        ∙ v.parented c hc ne (sym (q c).settles ∙ st);
    no_self = λ c hc. ap (λ o. parent_is o c) (q c).parent ∙ v.no_self c hc;
    init_root = (q init).parent ∙ v.init_root;
    init_in = v.init_in;
    init_live = (q init).lives ∙ v.init_live;
  }

pub Quiet-refl : (i : ℕ) (p : Proc) → Quiet i p p
Quiet-refl i p = record {
  parent = refl;
  pid = refl;
  zombie = refl;
  settles = refl;
  lives = refl;
  used = refl;
  awaits = λ h. h;
}

-- a quiet change of one entry
pub Quiet-update :
    (f : ℕ → Proc) (i : ℕ) (p : Proc) → Quiet i (f i) p → (j : ℕ) → Quiet j (f j) (update f i p j)
Quiet-update f i p q j = elim (Bool-cases (i == j)) [
  | inl e ↦ let d : i ≡ j = ground arith in rw e (subst (λ k. Quiet k (f k) p) d q)
  | inr ne ↦ rw ne (Quiet-refl j (f j))
]

live_at-update :
    (f : ℕ → Proc) (i : ℕ) (p : Proc) (o : Option ℕ)
    → (live (f i).state ≡ true → live p.state ≡ true)
    → live_at f o ≡ true
    → live_at (update f i p) o ≡ true
live_at-update f i p none k h = cc
live_at-update f i p (some q) k h = ground arith

module _ (f : ℕ → Proc) (init : ℕ) (v : TableInv f init) (i : ℕ) (p : Proc) where
  -- A free entry becomes a process in creation.
  pub alloc-TableInv :
      i < nproc
      → (f i).state ≡ ProcState.unused
      → p.state ≡ ProcState.embryo
      → p.parent ≡ (f i).parent
      → TableInv (update f i p) init
  alloc-TableInv hi u e same = record {
    waiting = λ a c ha hc w h. ground (arith, v.waiting a c);
    parented = λ c hc ne st. ground (arith, v.parented c, live_at-update f i p (f c).parent);
    no_self = λ c hc. ground (arith, v.no_self c);
    init_root = ground (arith, v.init_root, v.init_live);
    init_in = v.init_in;
    init_live = ground (arith, v.init_live);
  }

  -- A process in creation is given up.
  pub give_up-TableInv :
      (f i).state ≡ ProcState.embryo
      → p.state ≡ ProcState.unused
      → p.parent ≡ (f i).parent
      → TableInv (update f i p) init
  give_up-TableInv u e same = record {
    waiting = λ a c ha hc w h. ground (arith, v.waiting a c);
    parented = λ c hc ne st. ground (arith, v.parented c, live_at-update f i p (f c).parent);
    no_self = λ c hc. ground (arith, v.no_self c);
    init_root = ground (arith, v.init_root, v.init_live);
    init_in = v.init_in;
    init_live = ground (arith, v.init_live);
  }

  -- A process in creation is filled in.
  pub fill-TableInv :
      i < nproc
      → (f i).state ≡ ProcState.embryo
      → p.state ≡ ProcState.embryo
      → parent_is p.parent i ≡ false
      → TableInv (update f i p) init
  fill-TableInv hi u e other = record {
    waiting = λ a c ha hc w h. ground (arith, v.waiting a c);
    parented = λ c hc ne st. ground (arith, v.parented c, live_at-update f i p (f c).parent);
    no_self = λ c hc. ground (arith, v.no_self c);
    init_root = ground (arith, v.init_root, v.init_live);
    init_in = v.init_in;
    init_live = ground (arith, v.init_live);
  }

  -- A process in creation is settled as the child of a process that runs.
  pub settle-TableInv :
      (cur : ℕ)
      → i < nproc
      → cur < nproc
      → live (f cur).state ≡ true
      → (f i).state ≡ ProcState.embryo
      → p.state ≡ ProcState.runnable
      → p.parent ≡ some cur
      → TableInv (update f i p) init
  settle-TableInv cur hi hc l u e pa = record {
    waiting = λ a c ha hc w h. ground (arith, v.waiting a c);
    parented = λ c hc' ne st. elim (Bool-cases (i == c)) [
      | inl same ↦ simp (same, pa) (live_at-update f i p (some cur) (ground arith) (ground arith))
      | inr other ↦
          rw other
            (live_at-update f i p (f c).parent (ground arith) (v.parented c hc' ne (ground arith)))
    ];
    no_self = λ c hc. ground (arith, v.no_self c);
    init_root = ground (arith, v.init_root, v.init_live);
    init_in = v.init_in;
    init_live = ground (arith, v.init_live);
  }

  -- A zombie child is reaped: its entry is free again.
  pub reap-TableInv :
      (f i).state ≡ ProcState.zombie
      → p.state ≡ ProcState.unused
      → p.parent ≡ none
      → TableInv (update f i p) init
  reap-TableInv u e none_ = record {
    waiting = λ a c ha hc w h. ground (arith, v.waiting a c);
    parented = λ c hc ne st. ground (arith, v.parented c, live_at-update f i p (f c).parent);
    no_self = λ c hc. ground (arith, v.no_self c);
    init_root = ground (arith, v.init_root, v.init_live);
    init_in = v.init_in;
    init_live = ground (arith, v.init_live);
  }

  -- A running process with no zombie child goes to sleep in `wait`.
  pub wait-TableInv :
      live (f i).state ≡ true
      → p ≡ record (f i) { chan = Chan.on_proc i; state = ProcState.sleeping }
      → ((c : ℕ) → c < nproc → (parent_is (f c).parent i && is_zombie (f c).state) ≡ false)
      → TableInv (update f i p) init
  wait-TableInv l e none_dead = record {
    waiting = λ a c ha hc w h. ground (arith, v.waiting a c, none_dead c);
    parented = λ c hc ne st. ground (arith, v.parented c, live_at-update f i p (f c).parent);
    no_self = λ c hc. ground (arith, v.no_self c);
    init_root = ground (arith, v.init_root, v.init_live);
    init_in = v.init_in;
    init_live = ground (arith, v.init_live);
  }

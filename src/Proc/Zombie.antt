-- ===== src/Proc/Zombie.antt =====
-- proc.c: `exit` keeps the invariant of the process table.
use operating_systems_assign.Proc.Exit.{wakeup_parent, exit_table, adopt_all}
use operating_systems_assign.Base.{
  Option, arith, false, if◌then◌else◌, none, refl, some, true, ℕ, ◌<◌, ◌≡◌, ◌≢◌, ap, sym, ◌∙◌,
}
use operating_systems_assign.Proc.{Proc, ProcState, is_zombie, nproc, parent_is, update, Chan}
use operating_systems_assign.Proc.Inv.{TableInv, live_at, waits, live, Quiet, Quiet-TableInv}
use operating_systems_assign.Proc.Scan.{
  Adopted, Told, adopt_all-Adopted, wakeup1-Quiet, wakeup1-awake,
}

Adopted-refl : (cur init : ℕ) (f : ℕ → Proc) → Adopted cur init 0 f f
Adopted-refl cur init f = record {
  parents = λ c. ground arith;
  pid = λ c. refl;
  zombie = λ c. refl;
  settles = λ c. refl;
  lives = λ c. refl;
  used = λ c. refl;
  awaits = λ c w. w;
}

module _ (cur init : ℕ) (f g : ℕ → Proc) (v : TableInv f init) (a : Adopted cur init nproc f g)
    (t : Told cur init nproc f g) (hc : cur < nproc) (ne : cur ≢ init)
    (run : live (f cur).state ≡ true)
    (parent_told : (p : ℕ)
      → p < nproc
      → parent_is (f cur).parent p ≡ true
      → waits p (f p) ≡ false) where
  dead : ℕ → Proc
  dead = update g cur (record (g cur) { state = ProcState.zombie })

  -- the parent of `c` afterwards
  parent_after :
      (c : ℕ)
      → c < nproc
      → (dead c).parent ≡ (if parent_is (f c).parent cur then some init else (f c).parent)
  unfolding dead
  parent_after c h = ground (arith, a.parents c)

  dead-waiting :
      (p c : ℕ)
      → p < nproc
      → c < nproc
      → waits p (dead p) ≡ true
      → parent_is (dead c).parent p ≡ true
      → is_zombie (dead c).state ≡ false
  unfolding dead
  dead-waiting p c hp hc' w e =
      let pc = parent_after c hc' in
      ground (arith, pc, v.no_self cur, v.waiting p c, a.awaits p, a.zombie c, t c, parent_told p)

  live_at-dead :
      (o : Option ℕ) → parent_is o cur ≡ false → live_at f o ≡ true → live_at dead o ≡ true
  unfolding dead
  live_at-dead none h l = cc
  live_at-dead (some q) h l = ground (arith, a.lives q)

  dead-TableInv : TableInv dead init
  unfolding dead
  dead-TableInv = record {
    waiting = dead-waiting;
    parented = λ c h n st. ground (
      arith,
      a.parents c,
      v.no_self cur,
      v.parented c,
      a.settles c,
      live_at-dead (f c).parent,
      a.lives init,
      v.init_live,
      v.init_in,
    );
    no_self = λ c h. ground (arith, a.parents c, v.no_self c, v.init_root);
    init_root = ground (arith, a.parents init, v.init_root);
    init_in = v.init_in;
    init_live = ground (arith, a.lives init, v.init_live);
  }

-- The process that woke is its parent.
parent_told_lem :
    (cur : ℕ) (f : ℕ → Proc) (p : ℕ)
    → p < nproc
    → parent_is (f cur).parent p ≡ true
    → waits p (wakeup_parent (f cur).parent f p) ≡ false
parent_told_lem cur f p h e = go (f cur).parent e
  where
    go : (o : Option ℕ) → parent_is o p ≡ true → waits p (wakeup_parent o f p) ≡ false
    go none e = cc
    go (some q) e = (let s : q ≡ p = ground arith in rw s (wakeup1-awake p f h))

wakeup_parent-Quiet : (o : Option ℕ) (f : ℕ → Proc) (i : ℕ) → Quiet i (f i) (wakeup_parent o f i)
wakeup_parent-Quiet none f i = wakeup1-Quiet Chan.nowhere f i
wakeup_parent-Quiet (some q) f i = wakeup1-Quiet (Chan.on_proc q) f i

-- `exit` of a process other than init that can run keeps the invariant: its parent and init have been
-- woken where they slept in `wait`, and its children have init for their parent.
pub exit_table-TableInv :
    (cur init : ℕ) (f : ℕ → Proc)
    → TableInv f init
    → cur < nproc
    → cur ≢ init
    → live (f cur).state ≡ true
    → TableInv (exit_table cur init f) init
unfolding exit_table dead
exit_table-TableInv cur init f v hc ne run =
    let g = wakeup_parent (f cur).parent f in
    let q = wakeup_parent-Quiet (f cur).parent f in
    let (a, t) =
      adopt_all-Adopted cur init v.init_in nproc 0 g g (Adopted-refl cur init g)
        (λ c l. absurd (omega arith)) in
    dead-TableInv cur init g (adopt_all cur init 0 nproc g) (Quiet-TableInv f g init v q) a t hc ne
      ((q cur).lives ∙ run)
      (λ p h e. parent_told_lem cur f p h (ap (λ o. parent_is o p) (sym (q cur).parent) ∙ e))

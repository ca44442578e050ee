-- ===== src/Log/Recover.antt =====
-- log.c: what `recover_from_log` makes of a disk, with a transaction in its log and without.
use operating_systems_assign.Base.{
  Bool-cases, ap, arith, false, if◌then◌else◌, inl, inr, refl, suc, sym, true, zero, ℕ, ◌+◌, ◌-◌,
  ◌<◌, ◌==◌, ◌∙◌, ◌≡◌, ◌≢◌, ◌≤◌,
}
use operating_systems_assign.Log.{
  Block, Log, boot, bwrite, head_block, install_from, install_trans, read_head, recover_from_log,
  write_head,
}
use operating_systems_assign.Log.Install.{
  IsHome, Outside, Slots, install_from-frame, install_from-listed, listed,
}

-- the disk with the listed blocks replaced
abbrev pub installed : ℕ → (ℕ → ℕ) → (ℕ → Block) → (ℕ → Block) → ℕ → Block
installed n block new old x = if listed block x 0 n then new x else old x

-- A head block names `n` blocks.
abbrev pub Names : Block → ℕ → (ℕ → ℕ) → Type 0
Names h n block = (h 0 ≡ n) × ((i : ℕ) → i < n → h (suc i) ≡ block i)

listed-ext :
    (b c : ℕ → ℕ) (x m tail : ℕ)
    → ((i : ℕ) → tail ≤ i → i < tail + m → b i ≡ c i)
    → listed b x tail m ≡ listed c x tail m
listed-ext b c x zero tail e = refl
listed-ext b c x (suc m) tail e =
    let ih = listed-ext b c x m (suc tail) (λ i l h. e i (omega arith) (omega arith)) in
    let here = e tail (omega arith) (omega arith) in ground arith

pub write_head-other :
    (s : Log) (x : ℕ)
    → x ≢ s.start
    → ((write_head s).disk x ≡ s.disk x) × ((write_head s).cache x ≡ s.cache x)
unfolding write_head bwrite
write_head-other s x h = (ground arith, ground arith)

pub write_head-start :
    (s : Log)
    → ((write_head s).disk s.start
        ≡ (if s.power == 0 then s.disk s.start else head_block s.n s.block (s.cache s.start)))
      × ((write_head s).cache s.start ≡ head_block s.n s.block (s.cache s.start))
unfolding write_head bwrite
write_head-start s =
    let e : (s.start == s.start) ≡ true = ground arith in
    (
      elim (Bool-cases (s.power == 0)) [ inl z ↦ simp (z, e) refl | inr z ↦ simp (z, e) refl ],
      simp (e) refl,
    )

pub write_head-frame :
    (s : Log)
    → ((write_head s).start ≡ s.start)
      × ((write_head s).block ≡ s.block)
      × ((write_head s).n ≡ s.n)
      × ((write_head s).power ≡ s.power - 1)
unfolding write_head bwrite
write_head-frame s = (refl, refl, refl, refl)

-- Recovery from a disk whose log is empty changes no block outside of the log.
pub recover-empty :
    (s : Log) (q x : ℕ)
    → s.disk s.start 0 ≡ 0
    → x ≢ s.start
    → (recover_from_log (boot s q)).disk x ≡ s.disk x
unfolding recover_from_log install_trans read_head install_from
recover-empty s q x e h =
    let mid = read_head (boot s q) in
    let same : install_trans mid ≡ mid = ap (λ m. install_from 0 m mid) e in
    let (start_same, _, _) = install_from-frame mid.n 0 mid in
    let apart : x ≢ (install_trans mid).start = (λ d. h (d ∙ start_same)) in
    (write_head-other (record (install_trans mid) { n = 0 }) x apart).0 ∙ ap (λ l. l.disk x) same

-- Recovery from a disk whose log holds a transaction installs it.
pub recover-full :
    (new : ℕ → Block) (k n : ℕ) (block : ℕ → ℕ) (s : Log) (q x : ℕ)
    → Names (s.disk s.start) n block
    → Outside block s.start k 0 n
    → n ≤ k
    → suc n ≤ q
    → Slots s.start block new s.disk 0 n
    → IsHome s.start k x
    → (recover_from_log (boot s q)).disk x ≡ installed n block new s.disk x
unfolding recover_from_log install_trans read_head
recover-full new k n block s q x (e, names) o l lq slots home =
    let mid = read_head (boot s q) in
    let (start_same, _, _) = install_from-frame mid.n 0 mid in
    let agree : (i : ℕ) → 0 ≤ i → i < 0 + n → mid.block i ≡ block i =
      (λ i _ h. let u = names i (omega arith) in ground arith) in
    let listed_same = listed-ext mid.block block x n 0 agree in
    let all =
      install_from-listed new k mid.n 0 x mid
        (λ t a b. let u = o t a (omega arith) in let v = agree t a (omega arith) in ground arith)
        (omega arith) (omega arith)
        (λ t a b. slots t a (omega arith) ∙ ap new (sym (agree t a (omega arith)))) in
    let apart : x ≢ (install_trans mid).start = ground arith in
    (write_head-other (record (install_trans mid) { n = 0 }) x apart).0
    ∙ all
    ∙ ap (λ b. if b then new x else s.disk x) (ap (λ j. listed mid.block x 0 j) e ∙ listed_same)

pub installed-ext :
    (n : ℕ) (block : ℕ → ℕ) (new old old' : ℕ → Block) (x : ℕ)
    → (listed block x 0 n ≡ false → old x ≡ old' x)
    → installed n block new old x ≡ installed n block new old' x
installed-ext n block new old old' x h = elim (Bool-cases (listed block x 0 n)) [
  | inl e ↦ simp (e) refl
  | inr e ↦ simp (e) (h e)
]

pub recover-empty_at :
    (start : ℕ) (s : Log) (q x : ℕ)
    → s.start ≡ start
    → s.disk start 0 ≡ 0
    → x ≢ start
    → (recover_from_log (boot s q)).disk x ≡ s.disk x
recover-empty_at start s q x es e h =
    recover-empty s q x (ap (λ a. s.disk a 0) es ∙ e) (λ d. h (d ∙ es))

pub recover-full_at :
    (new : ℕ → Block) (k n : ℕ) (block : ℕ → ℕ) (start : ℕ) (s : Log) (q x : ℕ)
    → s.start ≡ start
    → Names (s.disk start) n block
    → Outside block start k 0 n
    → n ≤ k
    → suc n ≤ q
    → Slots start block new s.disk 0 n
    → IsHome start k x
    → (recover_from_log (boot s q)).disk x ≡ installed n block new s.disk x
recover-full_at new k n block start s q x es (a, b) o l lq slots home =
    recover-full new k n block s q x
      (ap (λ y. s.disk y 0) es ∙ a, λ i h. ap (λ y. s.disk y (suc i)) es ∙ b i h)
      (λ t l h. simp (es) (o t l h)) l lq (λ t l h. ap (λ y. s.disk (y + t + 1)) es ∙ slots t l h)
      (simp (es) home)

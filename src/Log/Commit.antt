-- ===== src/Log/Commit.antt =====
-- log.c: the stages of `commit`, up to the head that makes the transaction count.
use operating_systems_assign.Base.{
  Bool-cases, ap, arith, false, inl, inr, ltb, refl, suc, sym, true, zero, ℕ, ◌+◌, ◌-◌, ◌<◌, ◌==◌,
  ◌∙◌, ◌≡◌, ◌≢◌, ◌≤◌, ◌⊎◌,
}
use operating_systems_assign.Log.{
  Log, bwrite, commit, head_block, install_from, install_trans, write_from, write_head, write_log,
}
use operating_systems_assign.Log.Install.{
  IsHome, Outside, Slots, install_from-frame, install_from-other, install_one, listed,
  write_from-Slots, write_from-frame, write_from-other,
}
use operating_systems_assign.Log.Recover.{
  Names, write_head-frame, write_head-other, write_head-start,
}

pub install_from-dead :
    (m tail x : ℕ) (s : Log) → s.power ≡ 0 → (install_from tail m s).disk x ≡ s.disk x
unfolding install_from bwrite
install_from-dead zero tail x s e = refl
install_from-dead (suc m) tail x s e =
    let ih = install_from-dead m (suc tail) x (install_one tail s) (omega arith) in ground arith

-- the state after the head is written, when the power lasts until then
unfoldable pub logged : (s : Log) → Log
logged s = write_head (write_log s)

unfoldable pub clear_head : Log → Log
clear_head s = write_head (record s { n = 0 })

pub write_head-dead : (s : Log) (x : ℕ) → s.power ≡ 0 → (write_head s).disk x ≡ s.disk x
unfolding write_head bwrite
write_head-dead s x e = ground arith

pub commit-runs : (s : Log) → ltb 0 s.n ≡ true → commit s ≡ clear_head (install_trans (logged s))
unfolding commit logged clear_head
commit-runs s e = simp (e) refl

pub commit-idle : (s : Log) → ltb 0 s.n ≡ false → commit s ≡ s
unfolding commit
commit-idle s e = simp (e) refl

-- a crash in the course of `write_log`, or before the head is written
pub commit-early :
    (s : Log) (x : ℕ)
    → (x ≤ s.start) ⊎ (s.start + s.n < x)
    → s.power ≤ s.n
    → (commit s).disk x ≡ s.disk x
unfolding logged write_log install_trans clear_head
commit-early s x h p =
    let w = write_from 0 s.n s in
    let v = write_head w in
    let (a, _) = write_from-other s.n 0 x s (ground arith) in
    let (_, _, _, e_power) = write_from-frame s.n 0 s in
    let (_, _, _, f_power) = write_head-frame w in
    let (_, _, g_power) = install_from-frame v.n 0 v in
    elim (Bool-cases (ltb 0 s.n)) [
      | inl e ↦
          ap (λ l. l.disk x) (commit-runs s e)
          ∙ write_head-dead (record (install_from 0 v.n v) { n = 0 }) x (omega arith)
          ∙ install_from-dead v.n 0 x v (omega arith)
          ∙ write_head-dead w x (omega arith)
          ∙ a
      | inr e ↦ ap (λ l. l.disk x) (commit-idle s e)
    ]

pub logged-Slots :
    (s : Log) (k : ℕ)
    → Outside s.block s.start k 0 s.n
    → s.n ≤ k
    → s.n < s.power
    → Names ((logged s).disk s.start) s.n s.block
      × Slots s.start s.block s.cache (logged s).disk 0 s.n
      × Slots s.start s.block s.cache (logged s).cache 0 s.n
unfolding logged write_log
logged-Slots s k o l p =
    let w = write_from 0 s.n s in
    let (sc, sd) = write_from-Slots k s.n 0 s o (omega arith) in
    let (e_start, e_block, e_n, e_power) = write_from-frame s.n 0 s in
    let (head_d, head_c) = write_head-start w in
    let old : (t : ℕ) → s.start + t + 1 ≢ w.start = (λ t e. omega arith) in
    let z : (w.power == 0) ≡ false = ground arith in
    let named : (write_head w).disk s.start ≡ head_block w.n w.block (w.cache w.start) =
      ap (write_head w).disk (sym e_start) ∙ (simp (z) at head_d) in
    (
      (
        ap (λ b. b 0) named ∙ e_n,
        λ i h.
            let here : head_block w.n w.block (w.cache w.start) (suc i) ≡ s.block i =
              ground arith in
            ap (λ b. b (suc i)) named ∙ here,
      ),
      λ t a b. (write_head-other w (s.start + t + 1) (old t)).0 ∙ sd (omega arith) t a b,
      λ t a b. (write_head-other w (s.start + t + 1) (old t)).1 ∙ sc t a b,
    )

pub logged-frame :
    (s : Log)
    → ((logged s).start ≡ s.start)
      × ((logged s).block ≡ s.block)
      × ((logged s).n ≡ s.n)
      × ((logged s).power ≡ s.power - suc s.n)
unfolding logged write_log
logged-frame s =
    let w = write_from 0 s.n s in
    let (a, b, c, d) = write_from-frame s.n 0 s in
    let (a', b', c', d') = write_head-frame w in (a' ∙ a, b' ∙ b, c' ∙ c, d' ∙ omega arith)

pub logged-home : (s : Log) (k x : ℕ) → s.n ≤ k → IsHome s.start k x → (logged s).disk x ≡ s.disk x
unfolding logged write_log
logged-home s k x l home =
    let w = write_from 0 s.n s in
    let (a, _, _, _) = write_from-frame s.n 0 s in
    (write_head-other w x (ground arith)).0 ∙ (write_from-other s.n 0 x s (ground arith)).0

-- the blocks of the log, and those that no slot stands for, are not touched by the installation
pub install-unlisted :
    (s : Log) (x : ℕ)
    → listed s.block x 0 s.n ≡ false
    → (install_trans (logged s)).disk x ≡ (logged s).disk x
unfolding install_trans
install-unlisted s x h =
    let v = logged s in
    let (_, eb, en, _) = logged-frame s in
    (install_from-other v.n 0 x v
      (ap (λ b. listed b x 0 v.n) eb ∙ ap (listed s.block x 0) en ∙ h)).0

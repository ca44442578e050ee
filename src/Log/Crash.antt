-- ===== src/Log/Crash.antt =====
-- log.c: a transaction is atomic. The machine may stop after any number of block writes of `commit`;
-- what `recover_from_log` then makes of the disk is all of the old or all of the new.
use operating_systems_assign.Base.{
  Bool-cases, ap, arith, false, if◌then◌else◌, inl, inr, ltb, refl, suc, true, ℕ, ◌+◌, ◌<◌, ◌==◌,
  ◌∙◌, ◌≡◌, ◌≢◌, ◌≤◌, ◌⊎◌,
}
use operating_systems_assign.Log.{Log, boot, commit, install_trans, recover_from_log}
use operating_systems_assign.Log.Install.{
  IsHome, Outside, install_from-frame, install_from-listed, listed, not_listed,
}
use operating_systems_assign.Log.Recover.{
  installed, installed-ext, recover-empty, recover-empty_at, recover-full_at, write_head-frame,
  write_head-other, write_head-start,
}
use operating_systems_assign.Log.Commit.{
  clear_head, commit-early, commit-idle, commit-runs, install-unlisted, logged, logged-Slots,
  logged-frame, logged-home, write_head-dead,
}

-- the state that the machine is in when the power ends between the two writes of the head
commit-late :
    (s : Log) (k q x : ℕ)
    → Outside s.block s.start k 0 s.n
    → s.n ≤ k
    → s.n < q
    → IsHome s.start k x
    → s.n < s.power
    → s.power ≤ s.n + s.n + 1
    → (recover_from_log (boot (clear_head (install_trans (logged s))) q)).disk x
      ≡ installed s.n s.block s.cache s.disk x
unfolding clear_head install_trans
commit-late s k q x o l lq home p1 p2 =
    let v = logged s in
    let i = install_trans v in
    let c = clear_head i in
    let (vs, vb, vn, vp) = logged-frame s in
    let (is, _, ip) = install_from-frame v.n 0 v in
    let (cs, _, _, _) = write_head-frame (record i { n = 0 }) in
    let ((h0, hs), slots_d, _) = logged-Slots s k o l p1 in
    let same : (y : ℕ) → listed s.block y 0 s.n ≡ false → c.disk y ≡ v.disk y =
      (λ y h. write_head-dead (record i { n = 0 }) y (omega arith) ∙ install-unlisted s y h) in
    let in_log : (y : ℕ) → s.start ≤ y → y ≤ s.start + k → c.disk y ≡ v.disk y =
      (λ y a b. same y (not_listed s.block s.start k y s.n 0 o a b)) in
    let head = in_log s.start (omega arith) (omega arith) in
    recover-full_at s.cache k s.n s.block s.start c q x (cs ∙ is ∙ vs)
      (ap (λ b. b 0) head ∙ h0, λ j h. ap (λ b. b (suc j)) head ∙ hs j h) o l lq
      (λ t a b. in_log (s.start + t + 1) (omega arith) (omega arith) ∙ slots_d t a b) home
    ∙ installed-ext s.n s.block s.cache c.disk s.disk x (λ h. same x h ∙ logged-home s k x l home)

-- the state that the machine is in when the power outlasts `commit`
commit-done :
    (s : Log) (k q x : ℕ)
    → Outside s.block s.start k 0 s.n
    → s.n ≤ k
    → IsHome s.start k x
    → s.n + s.n + 1 < s.power
    → (recover_from_log (boot (clear_head (install_trans (logged s))) q)).disk x
      ≡ installed s.n s.block s.cache s.disk x
unfolding clear_head install_trans
commit-done s k q x o l home p =
    let v = logged s in
    let i = install_trans v in
    let c = clear_head i in
    let (vs, vb, vn, vp) = logged-frame s in
    let (is, _, ip) = install_from-frame v.n 0 v in
    let (cs, _, _, _) = write_head-frame (record i { n = 0 }) in
    let (_, _, slots_c) = logged-Slots s k o l (omega arith) in
    let (head, _) = write_head-start (record i { n = 0 }) in
    let z : (i.power == 0) ≡ false = ground arith in
    let apart : x ≢ i.start = (λ e. ground arith) in
    recover-empty_at i.start c q x cs (ap (λ b. b 0) (simp (z) at head)) apart
    ∙ (write_head-other (record i { n = 0 }) x apart).0
    ∙ install_from-listed s.cache k v.n 0 x v
        (λ t a b. simp (vs, ap (λ f. f t) vb) (o t a (omega arith))) (omega arith) (omega arith)
        (λ t a b. simp (vs, ap (λ f. f t) vb) (slots_c t a (omega arith)))
    ∙ simp (vb, vn, logged-home s k x l home) refl

commit-start : (s : Log) → (commit s).start ≡ s.start
unfolding clear_head install_trans
commit-start s =
    let v = logged s in
    let (a, _, _, _) = logged-frame s in
    let (b, _, _) = install_from-frame v.n 0 v in
    let (c, _, _, _) = write_head-frame (record (install_trans v) { n = 0 }) in
    elim (Bool-cases (ltb 0 s.n)) [
      | inl e ↦ ap (λ l. l.start) (commit-runs s e) ∙ c ∙ b ∙ a
      | inr e ↦ ap (λ l. l.start) (commit-idle s e)
    ]

recover-early :
    (s : Log) (q x : ℕ)
    → s.disk s.start 0 ≡ 0
    → x ≢ s.start
    → (x ≤ s.start) ⊎ (s.start + s.n < x)
    → s.power ≤ s.n
    → (recover_from_log (boot (commit s) q)).disk x ≡ s.disk x
recover-early s q x clear ne h p =
    recover-empty_at s.start (commit s) q x (commit-start s)
      (ap (λ b. b 0) (commit-early s s.start (inl (omega arith)) p) ∙ clear) ne
    ∙ commit-early s x h p

recover-idle :
    (s : Log) (k q x : ℕ)
    → s.n ≡ 0
    → s.disk s.start 0 ≡ 0
    → IsHome s.start k x
    → ltb 0 s.n ≡ false
    → (recover_from_log (boot (commit s) q)).disk x
      ≡ (if ltb s.n s.power then installed s.n s.block s.cache s.disk x else s.disk x)
recover-idle s k q x bare_n clear home idle =
    ap (λ l. (recover_from_log (boot l q)).disk x) (commit-idle s idle)
    ∙ recover-empty s q x clear (λ d. ground arith)
    ∙ (let bare : listed s.block x 0 s.n ≡ false = ap (listed s.block x 0) bare_n in
        elim (Bool-cases (ltb s.n s.power)) [ inl e ↦ simp (e, bare) refl | inr e ↦ simp (e) refl ])

crash_time :
    (s : Log)
    → (s.power ≤ s.n) ⊎ ((s.n < s.power) × (s.power ≤ s.n + s.n + 1)) ⊎ (s.n + s.n + 1 < s.power)
crash_time s = omega arith

-- The outcome of a transaction does not depend on where the machine stops: for `n` blocks, it is
-- the old contents before write `n + 1` of `commit`, which writes the head, and the new ones after.
pub commit-recover :
    (s : Log) (k q x : ℕ)
    → s.disk s.start 0 ≡ 0
    → Outside s.block s.start k 0 s.n
    → s.n ≤ k
    → s.n < q
    → IsHome s.start k x
    → (recover_from_log (boot (commit s) q)).disk x
      ≡ (if ltb s.n s.power then installed s.n s.block s.cache s.disk x else s.disk x)
commit-recover s k q x clear o l lq home = elim (Bool-cases (ltb 0 s.n)) [
  | inl busy ↦ elim (crash_time s) [
    | inl e ↦
        (let no : ltb s.n s.power ≡ false = ground arith in
          simp (no) (recover-early s q x clear (ground arith) (ground arith) e))
    | inr (inl (e, h)) ↦
        (let yes : ltb s.n s.power ≡ true = ground arith in
          simp (yes, commit-runs s busy) (commit-late s k q x o l lq home e h))
    | inr (inr h) ↦
        (let yes : ltb s.n s.power ≡ true = ground arith in
          simp (yes, commit-runs s busy) (commit-done s k q x o l home h))
  ]
  | inr idle ↦ (let bare_n : s.n ≡ 0 = ground arith in recover-idle s k q x bare_n clear home idle)
]

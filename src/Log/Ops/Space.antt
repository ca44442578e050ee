-- ===== src/Log/Ops/Space.antt =====
-- log.c: `begin_op` lets in no more operations than the log has room for. Each operation may write
-- `maxopblocks` blocks; the list holds what is left to each operation that runs.
use operating_systems_assign.Log.Recover.{write_head-frame}
use operating_systems_assign.Log.Commit.{logged, clear_head, commit-idle, commit-runs}
use operating_systems_assign.Log.Install.{install_one, write_one}
use operating_systems_assign.Kernel.Ends.{Ends}
use operating_systems_assign.Base.{
  Bool, List, [], arith, false, refl, suc, true, ℕ, ◌++◌, ◌+◌, ◌∷◌, ◌≡◌, ◌≤◌, Bool-cases, inl, inr,
  zero, ◌<◌, ◌∙◌, ltb,
}
use operating_systems_assign.Kernel.{done, Run, panics, sleeps}
use operating_systems_assign.Log.{
  Log, commit, logsize, maxopblocks, bwrite, install_from, install_trans, write_from, write_head,
  write_log,
}
use operating_systems_assign.Log.Ops.{begin_op, end_op_enter, end_op_leave, log_write}

-- what the file system calls and the commit do to the log
pub data Step : Log → List ℕ → Log → List ℕ → Type 0 where
  begins : {s t : Log} {ops : List ℕ} → begin_op s ≡ done tt t → Step s ops t (maxopblocks ∷ ops)
  writes :
      {s t : Log} (b r : ℕ) (xs : List ℕ) (ys : List ℕ)
      → log_write b s ≡ done tt t
      → Step s (xs ++ suc r ∷ ys) t (xs ++ r ∷ ys)
  enters :
      {s t : Log} (d : Bool) (r : ℕ) (xs : List ℕ) (ys : List ℕ)
      → end_op_enter s ≡ done d t
      → Step s (xs ++ r ∷ ys) t (xs ++ ys)
  commits : {s : Log} → s.committing ≡ true → Step s [] (commit s) []
  leaves : {s : Log} → s.committing ≡ true → s.n ≡ 0 → Step s [] (end_op_leave s) []

-- the log as `initlog` leaves it, and what it becomes
pub data Reach (size : ℕ) : Log → List ℕ → Type 0 where
  starts :
      {s : Log}
      → s.size ≡ size
      → s.n ≡ 0
      → s.outstanding ≡ 0
      → s.committing ≡ false
      → Reach size s []
  steps :
      {s t : Log} {ops after : List ℕ} → Reach size s ops → Step s ops t after → Reach size t after

abbrev total : List ℕ → ℕ
total [] = 0
total (r ∷ ops) = r + total ops

abbrev count : List ℕ → ℕ
count [] = 0
count (r ∷ ops) = suc (count ops)

abbrev AllWithin : List ℕ → Type 0
AllWithin [] = Unit
AllWithin (r ∷ ops) = (r ≤ maxopblocks) × AllWithin ops

record HasSpace (size : ℕ) (s : Log) (ops : List ℕ) : Type 0 where
  same_size : s.size ≡ size
  few : count ops ≤ 3
  running : s.outstanding ≡ count ops
  within : AllWithin ops
  room : s.n + total ops ≤ logsize
  quiet : s.committing ≡ true → count ops ≡ 0

write_from-rest :
    (m tail : ℕ) (s : Log)
    → ((write_from tail m s).size ≡ s.size) × ((write_from tail m s).outstanding ≡ s.outstanding)
unfolding write_from bwrite
write_from-rest zero tail s = (refl, refl)
write_from-rest (suc m) tail s = write_from-rest m (suc tail) (write_one tail s)

install_from-rest :
    (m tail : ℕ) (s : Log)
    → ((install_from tail m s).size ≡ s.size)
      × ((install_from tail m s).outstanding ≡ s.outstanding)
unfolding install_from bwrite
install_from-rest zero tail s = (refl, refl)
install_from-rest (suc m) tail s = install_from-rest m (suc tail) (install_one tail s)

write_head-rest :
    (s : Log) → ((write_head s).size ≡ s.size) × ((write_head s).outstanding ≡ s.outstanding)
unfolding write_head bwrite
write_head-rest s = (refl, refl)

pub commit-frame :
    (s : Log)
    → ((commit s).size ≡ s.size) × ((commit s).outstanding ≡ s.outstanding) × ((commit s).n ≡ 0)
unfolding logged clear_head write_log install_trans
commit-frame s =
    let w = write_from 0 s.n s in
    let v = write_head w in
    let (a, b) = write_from-rest s.n 0 s in
    let (c, d) = write_head-rest w in
    let (e, f) = install_from-rest v.n 0 v in
    let clean = record (install_from 0 v.n v) { n = 0 } in
    let (g, h) = write_head-rest clean in
    let (_, _, none_left, _) = write_head-frame clean in
    elim (Bool-cases (ltb 0 s.n)) [
      | inl busy ↦ simp (commit-runs s busy) (g ∙ e ∙ c ∙ a, h ∙ f ∙ d ∙ b, none_left)
      | inr idle ↦ simp (commit-idle s idle) (refl, refl, ground arith)
    ]

-- What `log_write` may come to in a log of `size` blocks, the head included.
abbrev pub WriteOutcome : ℕ → Log → Run Log (Unit {0}) → Type 0
WriteOutcome size s (done a t) = (t.n ≤ logsize) × (suc s.n < size)
WriteOutcome size s sleeps = ⊥
WriteOutcome size s panics = size ≤ suc s.n

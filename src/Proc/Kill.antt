-- ===== src/Proc/Kill.antt =====
-- proc.c: what `kill` reaches. A free entry has pid 0 (`wait` sets it so, and the table starts so),
-- and neither `allocproc` nor `fork` resets `killed`.
use operating_systems_assign.Base.{
  Bool-cases, Option, arith, inl, inr, none, refl, some, sym, true, ℕ, ◌+◌, ◌<◌, ◌==◌, ◌∙◌, ◌≡◌,
  ◌≢◌, ◌%◌,
}
use operating_systems_assign.Base.Int.{pos, ℤ}
use operating_systems_assign.Kernel.Ends.{Ends, Safe, ends, returns}
use operating_systems_assign.Proc.{
  Proc, ProcOps, ProcState, Procs, find_from, is_unused, nproc, update,
}
use operating_systems_assign.Proc.Ops.{alloc_found, allocproc, kill, kill_found}
use operating_systems_assign.Proc.Steps.{ext_bind}
use operating_systems_assign.Proc.Scan.{find_from-none, find_from-some}

is_pid : (p : Proc) (pid : ℕ) → p.pid ≡ pid → (p.pid == pid) ≡ true
is_pid p pid e = ground arith

some_eq : (k i : ℕ) → ◌≡◌ {A = Option ℕ} (some k) (some i) → k ≡ i
some_eq k i e = cc

-- the first entry of the pid
abbrev pub IsFirst : (ℕ → Proc) → ℕ → ℕ → Type 0
IsFirst f pid k = (k < nproc) × ((f k).pid ≡ pid) × ((j : ℕ) → j < k → (f j).pid ≢ pid)

module _ {E : Type 0} where
  -- `kill` of a pid that one process has marks that process killed, wakes it if it sleeps, changes no
  -- other entry and returns 0.
  pub kill-found :
      (s : Procs E) (pid i : ℕ)
      → i < nproc
      → (s.proc i).pid ≡ pid
      → ((j : ℕ) → j < nproc → (s.proc j).pid ≡ pid → j ≡ i)
      → Ends
          (λ r t.
            (r ≡ pos 0)
            × ((t.proc i).killed ≡ true)
            × ((t.proc i).state ≢ ProcState.sleeping)
            × ((j : ℕ) → j ≢ i → t.proc j ≡ s.proc j))
          (kill pid s)
  unfolding kill
  kill-found s pid i hi e only = go (find_from (λ p. p.pid == pid) s.proc 0 nproc) refl
    where
      go :
          (o : Option ℕ)
          → find_from (λ p. p.pid == pid) s.proc 0 nproc ≡ o
          → Ends
              (λ r t.
                (r ≡ pos 0)
                × ((t.proc i).killed ≡ true)
                × ((t.proc i).state ≢ ProcState.sleeping)
                × ((j : ℕ) → j ≢ i → t.proc j ≡ s.proc j))
              (kill_found o s)
      go none h = cc (
          sym (find_from-none (λ p. p.pid == pid) s.proc 0 nproc h i (omega arith) (omega arith))
          ∙ is_pid (s.proc i) pid e)
      go (some k) h =
          let (_, lt, hit, _) = find_from-some (λ p. p.pid == pid) s.proc 0 nproc k h in
          let same : k ≡ i = only k (omega arith) (ground arith) in
          rw same (ends (refl, ground arith, ground arith, λ j ne. ground arith))

  -- what `kill` of a pid that some entry has comes to
  abbrev pub KillsFirst : Procs E → ℕ → ℤ → Procs E → Type 0
  KillsFirst s pid r t =
      (r ≡ pos 0)
      × ((k : ℕ) × IsFirst s.proc pid k
          × ((t.proc k).killed ≡ true)
          × ((j : ℕ) → j ≢ k → t.proc j ≡ s.proc j))

  -- `kill(0)`, by any process: if some entry has pid 0, in whatever state, it returns 0 and marks the
  -- first such entry killed, and no other entry changes.
  pub kill-zero :
      (s : Procs E) (i : ℕ) → i < nproc → (s.proc i).pid ≡ 0 → Ends (KillsFirst s 0) (kill 0 s)
  unfolding kill
  kill-zero s i hi e = go (find_from (λ p. p.pid == 0) s.proc 0 nproc) refl
    where
      go :
          (o : Option ℕ)
          → find_from (λ p. p.pid == 0) s.proc 0 nproc ≡ o
          → Ends (KillsFirst s 0) (kill_found o s)
      go none h = cc (
          sym (find_from-none (λ p. p.pid == 0) s.proc 0 nproc h i (omega arith) (omega arith))
          ∙ is_pid (s.proc i) 0 e)
      go (some k) h =
          let (_, lt, hit, first) = find_from-some (λ p. p.pid == 0) s.proc 0 nproc k h in
          ends (
            refl,
            (
              k,
              (omega arith, ground arith, λ j l z. let n = first j (omega arith) l in ground arith),
              ground arith,
              λ j ne. ground arith,
            ),
          )

module _ {E : Type 0} (ops : ProcOps E) where
  -- `allocproc` leaves the mark of `kill` on the entry that it takes: whoever it creates there is
  -- killed if the free entry was.
  pub allocproc-killed :
      (s : Procs E)
      → Safe (λ o t. (i : ℕ) → o ≡ some i → (t.proc i).killed ≡ (s.proc i).killed) (allocproc ops s)
  unfolding allocproc
  allocproc-killed s = go (find_from (λ p. is_unused p.state) s.proc 0 nproc)
    where
      go :
          (o : Option ℕ)
          → Safe
              (λ o t. (i : ℕ) → o ≡ some i → (t.proc i).killed ≡ (s.proc i).killed)
              (alloc_found ops o s)
      go none = returns (λ i e. cc)
      go (some k) =
          ext_bind (ops.kalloc s.ext) _
            (record s {
              proc =
                  update s.proc k (record (s.proc k) { state = ProcState.embryo; pid = s.nextpid });
              nextpid = (s.nextpid + 1) % 4294967296;
            })
            λ a x. elim (Bool-cases (a == 0)) [
              | inl z ↦ simp z (returns (λ i e. cc))
              | inr z ↦
                  simp z
                    (returns (λ i e. let q : i ≡ k = sym (some_eq k i e) in rw q (ground arith)))
            ]

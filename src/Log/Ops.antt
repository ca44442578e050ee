-- ===== src/Log/Ops.antt =====
-- log.c: `begin_op`, `log_write` and `end_op`. The lock `log.lock` makes each of them one step, and
-- `end_op` two when it commits: before `commit`, which runs without the lock, and after it.
pub mod Space
use operating_systems_assign.Base.{
  Bool, false, if◌then◌else◌, leb, ltb, suc, true, zero, ℕ, ◌%◌, ◌&&◌, ◌*◌, ◌+◌, ◌-◌, ◌==◌, ◌||◌,
}
use operating_systems_assign.Kernel.{Cmd, done, modify, panics, pure, sleeps, ◌>>=◌, ◌>>◌}
use operating_systems_assign.Log.{Log, commit, logsize, maxopblocks, put}

-- an `int`, as its 32 bits, compared with a constant
abbrev pub exceeds : ℕ → ℕ → Bool
exceeds v c = ltb v 2147483648 && ltb c v

abbrev pub below_one : ℕ → Bool
below_one v = v == 0 || leb 2147483648 v

-- One round of the loop: a caller that has to wait is asleep, and tries again when it wakes up.
unfoldable pub begin_op : Cmd Log (Unit {0})
begin_op s =
    if s.committing
    then sleeps
    else if exceeds ((s.n + (s.outstanding + 1) * maxopblocks) % 4294967296) logsize
    then sleeps
    else done tt (record s { outstanding = (s.outstanding + 1) % 4294967296 })

-- the loop that looks for the block, from `i` on, for `m` rounds
unfoldable pub absorbed_at : (ℕ → ℕ) → ℕ → ℕ → ℕ → ℕ
absorbed_at block b i zero = i
absorbed_at block b i (suc m) =
    let rest = absorbed_at block b (suc i) m in if block i == b then i else rest

unfoldable pub log_write : ℕ → Cmd Log (Unit {0})
unfolding absorbed_at
log_write b s =
    if leb logsize s.n || leb (s.size - 1) s.n
    then panics
    else if below_one s.outstanding
    then panics
    else (let i = absorbed_at s.block b 0 s.n in
        done tt (record s { block = put s.block i b; n = if i == s.n then s.n + 1 else s.n }))

-- the first half of `end_op`; the result is `do_commit`
unfoldable pub end_op_enter : Cmd Log Bool
end_op_enter s =
    let left = (s.outstanding + 4294967295) % 4294967296 in
    if s.committing
    then panics
    else if left == 0
    then done true (record s { outstanding = left; committing = true })
    else done false (record s { outstanding = left })

-- the second half, after `commit`
unfoldable pub end_op_leave : Log → Log
end_op_leave s = record s { committing = false }

unfoldable pub end_op_commit : Bool → Cmd Log (Unit {0})
unfolding commit end_op_leave
end_op_commit true = modify commit >> modify end_op_leave
end_op_commit false = pure tt

unfoldable pub end_op : Cmd Log (Unit {0})
unfolding end_op_enter end_op_commit
end_op = end_op_enter >>= end_op_commit

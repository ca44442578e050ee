-- ===== src/Users/Volume/Laws.antt =====
-- usermanage.c: the models of fs.c, log.c and sleeplock.c fill the interface of the user table.
use operating_systems_assign.Users.Store.{FileLaws}
use operating_systems_assign.Log.Ops.Space.{commit-frame}
use operating_systems_assign.SleepLock.{
  SleepLock, acquiresleep, holdingsleep, initsleeplock, releasesleep,
}
use operating_systems_assign.Kernel.Ends.{Ends, ends}
use operating_systems_assign.Kernel.{Cmd, Run, done}
use operating_systems_assign.Users.Volume.{
  InLog, Volume, IsStore, bytes_of, length-array, readi-bytes, volume_ops, with_log, with_view,
  writei-bytes, unlock_inode, with_inode_lock,
}
use operating_systems_assign.Fs.File.Mapping.{byte_at}
use operating_systems_assign.Fs.File.{View, Devsw}
use operating_systems_assign.Log.{Log}
use operating_systems_assign.Fs.{Super, uint}
use operating_systems_assign.Log.Ops.{end_op, begin_op, end_op_commit, end_op_enter, end_op_leave}
use operating_systems_assign.Base.{ℕ, Bool, arith, refl, true, ◌<◌, ◌==◌, ◌≡◌}

pub on_log :
    {A : Type 0} {P : A → Log → Type 0} {Q : A → Volume → Type 0} (s : Volume) {r : Run Log A}
    → Ends P r
    → ((a : A) (l : Log) → P a l → Q a (record s { log = l }))
    → Ends Q (with_log s r)
on_log s (ends p) k = ends (k _ _ p)

pub on_view :
    {A : Type 0} {P : A → View → Type 0} {Q : A → Volume → Type 0} (s : Volume) {r : Run View A}
    → Ends P r
    → ((a : A) (v : View) → P a v → Q a (record s { view = v }))
    → Ends Q (with_view s r)
on_view s (ends p) k = ends (k _ _ p)

pub begin_op-alone : (l : Log) → InLog 0 l → Ends (λ _ m. InLog 1 m) (begin_op l)
unfolding begin_op
begin_op-alone l (o, c, z) = simp (c, o, z) (ends (refl, refl, refl))

-- The last operation commits, which leaves the log empty.
pub end_op-alone : (l : Log) → InLog 1 l → Ends (λ _ m. InLog 0 m) (end_op l)
unfolding end_op end_op_enter end_op_commit end_op_leave
end_op-alone l (o, c, z) =
    let (a, b, e) = commit-frame (record l { outstanding = 0; committing = true }) in
    simp (c, o) (ends (b, refl, e))

pub on_inode_lock :
    {A : Type 0} {P : A → SleepLock → Type 0} {Q : A → Volume → Type 0} (s : Volume)
    {r : Run SleepLock A}
    → Ends P r
    → ((a : A) (l : SleepLock) → P a l → Q a (record s { lock = l }))
    → Ends Q (with_inode_lock s r)
on_inode_lock s (ends p) k = ends (k _ _ p)

pub acquiresleep-free :
    (pid : ℕ) (lk : SleepLock)
    → lk ≡ initsleeplock
    → Ends (λ _ m. m ≡ record { locked = true; pid = pid }) (acquiresleep pid lk)
unfolding acquiresleep initsleeplock
acquiresleep-free pid lk e = rw e (ends refl)

pub unlock_inode-held :
    (pid : ℕ) (lk : SleepLock)
    → lk ≡ record { locked = true; pid = pid }
    → Ends (λ _ m. m ≡ initsleeplock) (unlock_inode pid lk)
unfolding releasesleep holdingsleep initsleeplock
unlock_inode-held pid lk e =
    let q : (pid == pid) ≡ true = ground arith in rw e (simp (q) (ends refl))

module _ (sb : Super) (dev : Devsw) (big : sb.size < uint) (pid : ℕ)
    (namei create : Cmd Volume Bool) (set_mode : ℕ → ℕ → Cmd Volume (Unit {0}))
    (namei_finds : (s : Volume) → IsStore sb s.view → namei s ≡ done true s) where
  abbrev In : ℕ → SleepLock → Volume → Type 0
  In k lk s = InLog k s.log × (s.lock ≡ lk) × IsStore sb s.view

  -- The models of fs.c, log.c and sleeplock.c do what the user table relies on, for a sound file with
  -- contents and no other operation.
  unfoldable pub volume_laws : FileLaws (volume_ops sb dev pid namei create set_mode)
  volume_laws = record {
    content = λ s. bytes_of s.view;
    Idle = In 0 initsleeplock;
    InOp = In 1 initsleeplock;
    Locked = In 1 (record { locked = true; pid = pid });
    begin_lem = λ s (l, k, h). on_log s (begin_op-alone s.log l) (λ a m p. ((p, k, h), refl));
    ilock_lem = λ s (l, k, h).
        on_inode_lock s (acquiresleep-free pid s.lock k) (λ a m e. ((l, e, h), refl));
    iunlock_lem = λ s (l, k, h).
        on_inode_lock s (unlock_inode-held pid s.lock k) (λ a m e. ((l, e, h), refl));
    end_lem = λ s (l, k, h). on_log s (end_op-alone s.log l) (λ a m p. ((p, k, h), refl));
    namei_lem = λ s (l, k, h) m. rw (namei_finds s h) (ends (refl, (l, k, h), refl));
    writei_lem = λ s src off (l, k, h) a b.
        on_view s
          (writei-bytes sb dev big s.view src off h
            (let n = length-array s.view.ip.size (byte_at s.view) in omega arith) b)
          (λ r v (e, i, c). (e, (l, k, i), c));
    readi_lem = λ s off n (l, k, h) a.
        rw
          (readi-bytes sb dev big s.view off n h
            (let n = length-array s.view.ip.size (byte_at s.view) in omega arith))
          (ends (refl, (l, k, h), refl));
  }

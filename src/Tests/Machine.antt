-- ===== src/Tests/Machine.antt =====
-- The user table over the models of the file system, with /passwd on the small disk.
use operating_systems_assign.Base.Int.{pos}
use operating_systems_assign.Users.Sound.{IsSoundTable}
use operating_systems_assign.Users.Session.{getuid-add_user, add_user-IsSound, delete_user-gone}
use operating_systems_assign.SleepLock.{initsleeplock}
use operating_systems_assign.Tests.Accounts.{
  ann, root_table-IsTable, root_table, ann-fresh, ann-valid, ann-valid_passwd, ann-found,
  ann-not_root, ann_table, ann_user-IsUser, blank-IsUser, root_table-IsSound, root_user-IsUser,
  with_ann-IsSound,
}
use operating_systems_assign.Tests.Disk.{
  small_super, no_devices, small_file-IsCovered, small_file-Sound, small_view,
}
use operating_systems_assign.Users.Ops.{getuid, add_user, delete_user, export_usertable}
use operating_systems_assign.Users.Volume.{Volume, volume_ops}
use operating_systems_assign.Users.Login.{Ready, free_lock}
use operating_systems_assign.Kernel.Ends.{Ends}
use operating_systems_assign.Log.{Log}
use operating_systems_assign.Users.Store.{FileLaws, FileOnly, Holds, export_usertable_lem}
use operating_systems_assign.Kernel.{Cmd, done}
use operating_systems_assign.Users.Volume.Laws.{volume_laws}
use operating_systems_assign.Users.{FileOps, Users, user_at}
use operating_systems_assign.Base.{ℕ, Bool, arith, false, refl, true, ◌≡◌, ◌≢◌}

abbrev quiet_log : Log
quiet_log = record {
  start = 2;
  size = 30;
  outstanding = 0;
  committing = false;
  n = 0;
  block = λ i. 0;
  cache = λ b i. 0;
  disk = λ b i. 0;
  power = 100;
}

abbrev found : Cmd Volume Bool
found s = done true s

abbrev keep_mode : ℕ → ℕ → Cmd Volume (Unit {0})
keep_mode mode uid s = done tt s

abbrev disk_ops : FileOps Volume
disk_ops = volume_ops small_super no_devices 3 found found keep_mode

disk_laws : FileLaws disk_ops
disk_laws = volume_laws small_super no_devices (omega arith) 3 found found keep_mode (λ s h. refl)

abbrev machine : Users Volume
machine = record {
  utable = root_table;
  next_uid = 2;
  initialized = true;
  lock = free_lock;
  file = record { log = quiet_log; lock = initsleeplock; view = small_view };
}

passwd-Idle : disk_laws.Idle machine.file
unfolding disk_laws volume_laws
passwd-Idle = (
  (refl, refl, refl),
  refl,
  record {
    sound = small_file-Sound;
    covered = small_file-IsCovered;
    file = λ e. absurd (omega arith);
    some_bytes = omega arith;
    front = omega arith;
  },
)

machine-Ready : Ready disk_ops disk_laws machine
machine-Ready = record { idle = passwd-Idle; table = root_table-IsTable; unlocked = refl }

-- the same with ann
abbrev with_ann : Users Volume
with_ann = record machine { utable = ann_table; next_uid = 3 }

with_ann-Ready : Ready disk_ops disk_laws with_ann
with_ann-Ready =
    let b = blank-IsUser in
    record {
      idle = passwd-Idle;
      unlocked = refl;
      table = record {
        ten = refl;
        each = (root_user-IsUser, (ann_user-IsUser, (b, (b, (b, (b, (b, (b, (b, (b, tt))))))))));
      };
    }

getuid-add_user_example :
    Ends
      (λ r t. (r ≢ 0) × (getuid disk_ops 4 100 ann ann t ≡ done r t))
      (add_user disk_ops 3 100 ann ann machine)
getuid-add_user_example =
    getuid-add_user disk_ops disk_laws 3 100 machine ann ann 1 4 machine-Ready (omega arith)
      (omega arith) ann-valid ann-valid_passwd ann-fresh (omega arith) refl

add_user-IsSound_example :
    Ends (λ r t. IsSoundTable t.utable t.next_uid) (add_user disk_ops 3 100 ann ann machine)
add_user-IsSound_example =
    add_user-IsSound disk_ops disk_laws 3 100 machine ann ann 1 machine-Ready (omega arith)
      ann-valid ann-valid_passwd ann-fresh (omega arith) refl root_table-IsSound

export_usertable_lem_example :
    Ends
      (λ _ t.
        FileOnly machine t × disk_laws.Idle t.file × Holds (disk_laws.content t.file) 2 root_table)
      (export_usertable disk_ops machine)
export_usertable_lem_example =
    export_usertable_lem disk_ops disk_laws machine passwd-Idle root_table-IsTable

delete_user-gone_example :
    Ends
      (λ r t.
        (r ≡ pos 0)
        × IsSoundTable t.utable t.next_uid
        × ((j : ℕ) → 1 ≢ j → user_at t.utable j ≡ user_at with_ann.utable j)
        × Ready disk_ops disk_laws t
        × Holds (disk_laws.content t.file) t.next_uid t.utable
        × (getuid disk_ops 4 100 ann ann t ≡ done 0 t))
      (delete_user disk_ops 3 100 ann with_ann)
delete_user-gone_example =
    delete_user-gone disk_ops disk_laws 3 100 with_ann ann ann 1 4 with_ann-Ready (omega arith)
      ann-valid ann-valid_passwd ann-not_root ann-found with_ann-IsSound

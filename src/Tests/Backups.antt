-- ===== src/Tests/Backups.antt =====
-- The backup controllers.
use etcdops.Base.{ap, ◌≤◌, ℕ, false, [], ◌∷◌, none, ◌≡◌, refl, ◌⊎◌, arith, length}
use etcdops.Base.Int.{pos, ◌≤ℤ◌, ◌+ℤ◌, ◌-ℤ◌}
use etcdops.Base.Text.{decimal, decimal_int}
use etcdops.Kube.{done, Frame, new_meta, zero_time, Time, Duration}
use etcdops.Types.Member.{cluster_label}
use etcdops.Types.Backup.{Backup, BackupSchedule, label, get_backup}
use etcdops.BackupController.Origin.{made_at, take_snapshot-made_at}
use etcdops.Types.Cluster.{get_backup_schedule}
use etcdops.BackupController.{
  take_snapshot, reconcile_body, retention_time, delete_backup, remove_stale,
}
use etcdops.BackupController.Clock.{max_duration, unix}
use etcdops.BackupController.Schedule.{schedule, scan_backups, plan_run, create_backup}
use etcdops.Tests.Memory.BackupList.{memory-BackupStore, memory-backups, memory-ListsFresh}
use etcdops.BackupController.Schedule.Single.{
  unfinished_count, open_backups, begins, passes, Continues-single,
}
use etcdops.BackupController.Removal.{Removes, remove_stale-Removes}
use etcdops.BackupController.Schedule.Runs.{Runs, schedule-Runs}
use etcdops.BackupController.Stale.{Remains, remove_stale_waits}
use etcdops.BackupController.Upload.{Uploaded, reconcile_body-Tracks}
use etcdops.Tests.Memory.{memory, empty_store}
use etcdops.Tests.Clusters.{three}

-- A backup of the cluster, created at the instant 10 and kept for a long time
abbrev backup : Time → Backup
backup finished = record {
  metadata = record (new_meta "etcd-1" "prod") {
    labels = (cluster_label, "etcd") ∷ [];
    creation_timestamp = pos 10;
  };
  spec = record { retention_period = pos 2000000000000 };
  status = record { finished = finished; url = "" };
}

abbrev daily : BackupSchedule
daily = record {
  metadata = new_meta "etcd" "prod";
  spec = record { creation_period = pos 1000; retention_period = pos 2000000000000 };
}

-- The schedule beside a backup that was finished at an instant
abbrev scheduled : Time → Frame memory.World BackupSchedule
scheduled finished = record {
  world = record empty_store { backups = backup finished ∷ [] };
  self = daily;
}

abbrev kept : Frame memory.World Backup
kept = record {
  world = record empty_store { clusters = three ∷ []; backups = backup zero_time ∷ [] };
  self = backup zero_time;
}

what_runs : Unit {0}
unfolding schedule scan_backups plan_run create_backup label get_backup decimal_int decimal unix
    ◌+ℤ◌ ◌-ℤ◌ retention_time
what_runs = tt

creates_second : length (schedule memory (scheduled (pos 20))).1.world.backups ≡ 2
unfolding what_runs
creates_second = refl

waits_for_first : length (schedule memory (scheduled zero_time)).1.world.backups ≡ 1
unfolding what_runs
waits_for_first = refl

schedule-Runs_example : Runs memory (scheduled (pos 20)) (schedule memory (scheduled (pos 20)))
schedule-Runs_example = schedule-Runs memory (scheduled (pos 20))

reconcile_body-Tracks_example :
    ((reconcile_body memory "bucket" "backups" kept).1.self ≡ kept.self)
    ⊎ Uploaded memory "bucket" "backups" kept (reconcile_body memory "bucket" "backups" kept).1.self
reconcile_body-Tracks_example = reconcile_body-Tracks memory "bucket" "backups" kept

remove_stale_waits_example :
    (d : Duration) × (remove_stale memory "bucket" "backups" kept ≡ (
      done (record { result = record { requeue = false; requeue_after = d }; error = none }),
      kept,
    ))
    × Remains (pos 1000000000000) (retention_time kept.self) d
    × (d ≤ℤ max_duration)
    × (pos 1000000000000 +ℤ d ≤ℤ retention_time kept.self)
unfolding what_runs
remove_stale_waits_example =
    remove_stale_waits memory "bucket" "backups" kept {t = pos 1000000000000}
      {u = pos 1000000000000} {w = kept.world} {v = kept.world} refl refl (omega arith)
      (omega arith)

take_snapshot-made_at_example :
    (take_snapshot memory (record { world = kept.world; self = made_at three 77 }) ≡ (
      done (memory.etcd.snapshot tt kept.world).0,
      record { world = (memory.etcd.snapshot tt kept.world).1; self = made_at three 77 },
    ))
    × (label cluster_label (made_at three 77).metadata.labels
        ≡ (get_backup_schedule three).metadata.name)
    × ((u : ℕ) → (made_at three u).metadata.name ≡ (made_at three 77).metadata.name → u ≡ 77)
take_snapshot-made_at_example =
    take_snapshot-made_at memory three three 77 kept.world {w1 = kept.world} {w2 = kept.world}
      {e = tt} refl refl

-- Two passes over a schedule that has no backup yet
abbrev again : Frame memory.World BackupSchedule
again = record {
  world = (schedule memory (record { world = empty_store; self = daily })).1.world;
  self = daily;
}

none_open : open_backups memory memory-BackupStore daily empty_store ≤ 1
unfolding unfinished_count
none_open = omega (arith, ap unfinished_count (memory-backups "prod" "etcd" empty_store))

Continues-single_example :
    open_backups memory memory-BackupStore daily (schedule memory again).1.world ≤ 1
Continues-single_example = Continues-single memory memory-BackupStore daily none_open (
    passes (passes begins (memory-ListsFresh daily empty_store))
      (memory-ListsFresh daily again.world))

-- A backup whose retention time is over
abbrev stale : Frame memory.World Backup
stale = record kept { self = record (kept.self) { spec = record { retention_period = pos 5 } } }

stale_removed : (remove_stale memory "bucket" "backups" stale).1.world.backups ≡ []
unfolding what_runs remove_stale delete_backup
stale_removed = refl

remove_stale-Removes_example :
    Removes memory "bucket" "backups" stale (remove_stale memory "bucket" "backups" stale)
remove_stale-Removes_example = remove_stale-Removes memory "bucket" "backups" stale

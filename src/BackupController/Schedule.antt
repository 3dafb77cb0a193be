-- ===== src/BackupController/Schedule.antt =====
-- controllers/backupschedule_controller.go: a schedule creates a backup when the last one is old
-- enough and none is under way.
pub mod Latest
pub mod Runs
pub mod Single
use etcdops.Base.{Bool, true, false, List, [], ◌∷◌, some, none, if◌then◌else◌}
use etcdops.Base.Int.{ltb_ℤ, ◌+ℤ◌}
use etcdops.Kube.{
  ok, err, Outcome, done, Action, Time, NamespacedName, is_zero_time, zero_time, pure, call,
  get_self, ◌>>=◌,
}
use etcdops.Types.Member.{cluster_label}
use etcdops.Types.Backup.{Backup, BackupSchedule, get_backup}
use etcdops.Env.{Env, Ret, proceed, failing, or_return}
use etcdops.Controller.{requeue}
use etcdops.BackupController.Clock.{sub_time, unix}

-- The variables of the loop over the backups
pub record Progress : Type 0 where
  pub in_progress : Bool
  pub latest : Time

unfoldable pub scan_backup : Backup → Progress → Progress
scan_backup b p = record {
  in_progress = if is_zero_time b.status.finished then true else p.in_progress;
  latest = if ltb_ℤ p.latest b.status.finished then b.status.finished else p.latest;
}

unfoldable pub scan_backups : List Backup → Progress → Progress
unfolding scan_backup
scan_backups [] p = p
scan_backups (b ∷ backups) p = scan_backups backups (scan_backup b p)

module _ (V : Env) where
  -- `CreateBackup`, with `Requeue()` beside its error
  unfoldable pub create_backup : Action V.World BackupSchedule (Ret V)
  create_backup = do
    s ← get_self
    now ← call V.now
    a ← call (V.backups.create (get_backup s (unix now)))
    pure (record { result = requeue; error = elim a [ ok _ ↦ none | err e ↦ some e ] })

  -- `RequeueAfter: nextRunTime.Sub(time.Now())`
  unfoldable pub wait_for_run : Time → Action V.World BackupSchedule (Ret V)
  wait_for_run t = do
    now ← call V.now
    pure (record {
      result = record { requeue = false; requeue_after = sub_time t now };
      error = none;
    })

  -- Behind the loop
  unfoldable pub plan_run : Progress → Action V.World BackupSchedule (Ret V)
  unfolding create_backup wait_for_run ◌+ℤ◌
  plan_run p = do
    s ← get_self
    let next_run = p.latest +ℤ s.spec.creation_period
    if p.in_progress then pure (record { result = requeue; error = none }) else do
      now ← call V.now
      if ltb_ℤ next_run now then create_backup else wait_for_run next_run

  unfoldable pub schedule : Action V.World BackupSchedule (Ret V)
  unfolding scan_backups plan_run
  schedule = do
    s ← get_self
    a ← call (V.backups.list s.metadata.namespace ((cluster_label, s.metadata.name) ∷ []))
    elim a [
      | err e ↦ pure (failing V (some e))
      | ok backups ↦
          plan_run (scan_backups backups (record { in_progress = false; latest = zero_time }))
    ]

  unfoldable pub reconcile_schedule : NamespacedName → V.World → Outcome (Ret V) × V.World
  unfolding schedule
  reconcile_schedule req w =
      let (a, w') = V.backup_schedules.get req w in
      elim a [
        | err e ↦ (done (failing V (V.ignore_not_found e)), w')
        | ok s ↦ elim (s.metadata.deletion_timestamp) [
          | some t ↦ (done (proceed V), w')
          | none ↦
              let (o, f) =
                or_return V (schedule) (pure (proceed V)) (record { world = w'; self = s }) in
              (o, f.world)
        ]
      ]

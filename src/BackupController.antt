-- ===== src/BackupController.antt =====
-- controllers/backup_controller.go: a backup is uploaded once, and deleted when it is stale. The
-- schedules that create backups are in BackupController/Schedule.antt.
pub mod Clock
pub mod Origin
pub mod Removal
pub mod Schedule
pub mod Stale
pub mod Upload
use etcdops.Base.{String, false, List, [], ◌∷◌, Option, some, none, if◌then◌else◌}
use etcdops.Base.Int.{ltb_ℤ, ◌+ℤ◌}
use etcdops.Base.Path.{path_join}
use etcdops.Kube.{
  Answer, ok, err, Outcome, done, Frame, Action, Time, NamespacedName, is_zero_time, pure, call,
  get_self, put_self, with_defer, ◌>>=◌, ◌>>◌,
}
use etcdops.Types.Member.{cluster_label}
use etcdops.Types.Cluster.{get_endpoints}
use etcdops.Types.Backup.{Backup, label}
use etcdops.Env.{Env, Ret, proceed, failing, or_return}
use etcdops.BackupController.Clock.{sub_time}

-- `backup.CreationTimestamp.Add(backup.Spec.RetentionPeriod)`
unfoldable pub retention_time : Backup → Time
unfolding ◌+ℤ◌
retention_time b = b.metadata.creation_timestamp +ℤ b.spec.retention_period

-- The key of a backup in the bucket
unfoldable pub object_key : String → Backup → String
object_key s3_prefix b =
    path_join (s3_prefix ∷ label cluster_label b.metadata.labels ∷ b.metadata.name ∷ [])

module _ (V : Env) where
  -- `Snapshot` returns a stream, which may be nil, and an error.
  unfoldable pub take_snapshot : Action V.World Backup (Answer V.Error (Option V.etcd.Snapshot))
  take_snapshot = do
    b ← get_self
    a ← call (
        V.clusters.get (record {
          name = label cluster_label b.metadata.labels;
          namespace = b.metadata.namespace;
        }))
    elim a [
      | err e ↦ pure (elim (V.ignore_not_found e) [ none ↦ ok none | some x ↦ err x ])
      | ok cluster ↦ do
        connected ← call (V.etcd.connect (get_endpoints cluster))
        elim connected [ err e ↦ pure (err e) | ok etcd ↦ call (V.etcd.snapshot etcd) ]
    ]

  -- `RequeueAfter: retentionTime.Sub(time.Now())`
  unfoldable pub wait_until : Time → Action V.World Backup (Ret V)
  wait_until t = do
    now ← call V.now
    pure (record {
      result = record { requeue = false; requeue_after = sub_time t now };
      error = none;
    })

  -- `r.Status().Update(ctx, &backup)` of the deferred call
  unfoldable pub update_status : Action V.World Backup (Unit {0})
  update_status = do
    b ← get_self
    a ← call (V.backups.update_status b)
    elim a [ ok b' ↦ put_self b' | err e ↦ pure tt ]

module _ (V : Env) (s3_bucket s3_prefix : String) where
  -- With a snapshot in hand
  unfoldable pub upload_snapshot : V.etcd.Snapshot → Action V.World Backup (Ret V)
  unfolding object_key
  upload_snapshot snapshot = do
    b ← get_self
    a ← call (V.upload s3_bucket (object_key s3_prefix b) snapshot)
    elim a [
      | err e ↦ pure (failing V (some e))
      | ok location ↦ do
        now ← call V.now
        put_self (record b { status = record { finished = now; url = location } })
        pure (proceed V)
    ]

  unfoldable pub upload_backup : Action V.World Backup (Ret V)
  unfolding take_snapshot upload_snapshot
  upload_backup = do
    taken ← take_snapshot V
    elim taken [
      | err e ↦ pure (failing V (some e))
      | ok none ↦ pure (proceed V)
      | ok (some snapshot) ↦ upload_snapshot snapshot
    ]

  -- Deletes the object in the bucket, then the backup
  unfoldable pub delete_backup : Action V.World Backup (Ret V) → Action V.World Backup (Ret V)
  unfolding object_key
  delete_backup next = do
    b ← get_self
    e ← call (V.delete_object s3_bucket (object_key s3_prefix b))
    elim e [
      | some x ↦ pure (failing V (some x))
      | none ↦ do
        d ← call (V.backups.delete b)
        elim d [ some x ↦ pure (failing V (V.ignore_not_found x)) | none ↦ next ]
    ]

  unfoldable pub remove_stale : Action V.World Backup (Ret V)
  unfolding delete_backup wait_until retention_time
  remove_stale = do
    b ← get_self
    now ← call V.now
    if ltb_ℤ (retention_time b) now
        then delete_backup (wait_until V (retention_time b))
        else wait_until V (retention_time b)

  unfoldable pub upload_if_unfinished : Action V.World Backup (Ret V)
  unfolding upload_backup
  upload_if_unfinished = do
    b ← get_self
    if is_zero_time b.status.finished then upload_backup else pure (proceed V)

  -- What stands below the `defer`
  unfoldable pub reconcile_body : Action V.World Backup (Ret V)
  unfolding upload_if_unfinished remove_stale
  reconcile_body = or_return V upload_if_unfinished remove_stale

  unfoldable pub reconcile_found : Action V.World Backup (Ret V)
  unfolding reconcile_body update_status
  reconcile_found = do
    b ← get_self
    elim (b.metadata.deletion_timestamp) [
      | some t ↦ pure (proceed V)
      | none ↦ with_defer (update_status V) reconcile_body
    ]

  unfoldable pub reconcile : NamespacedName → V.World → Outcome (Ret V) × V.World
  unfolding reconcile_found
  reconcile req w =
      let (a, w') = V.backups.get req w in
      elim a [
        | err e ↦ (done (failing V (V.ignore_not_found e)), w')
        | ok b ↦ let (o, f) = reconcile_found (record { world = w'; self = b }) in (o, f.world)
      ]

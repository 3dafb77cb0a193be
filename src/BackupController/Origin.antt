-- ===== src/BackupController/Origin.antt =====
-- From a cluster over its schedule to a backup and back (controllers/backup_controller.go, `Snapshot`,
-- and api/v1alpha1/backupschedule_types.go, `GetBackup`).
use etcdops.Base.{ℕ, ◌≡◌, arith, eq_iff, ◌<>◌}
use etcdops.Base.Int.{pos}
use etcdops.Base.Text.{decimal_int, decimal}
use etcdops.Base.Decimal.{decimal-injective}
use text.Mathlib.TextLemmas.{append_cancel_left}
use etcdops.Kube.{ok, done}
use etcdops.Types.Cluster.{Cluster, get_backup_schedule, get_endpoints}
use etcdops.Types.Member.{cluster_label}
use etcdops.Types.Backup.{Backup, label, get_backup}
use etcdops.Env.{Env}
use etcdops.Env.Store.{key_of}
use etcdops.BackupController.{take_snapshot}

-- The backup that the schedule of a cluster creates in a second
abbrev pub made_at : Cluster → ℕ → Backup
made_at c t = get_backup (get_backup_schedule c) (pos t)

module _ (V : Env) where
  -- If the cluster of a backup that its schedule has created can still be fetched and etcd can be
  -- connected, then the snapshot is taken from that cluster: the backup's label leads to the cluster
  -- by name and namespace, and to its endpoints. The label has the name of the schedule, by which the
  -- schedule lists its backups, and backups of two different seconds have different names.
  pub take_snapshot-made_at :
      (c d : Cluster) (t : ℕ) (w : V.World) {w1 w2 : V.World} {e : V.etcd.Connection}
      → V.clusters.get (key_of c.metadata) w ≡ (ok d, w1)
      → V.etcd.connect (get_endpoints d) w1 ≡ (ok e, w2)
      → (take_snapshot V (record { world = w; self = made_at c t }) ≡ (
        done (V.etcd.snapshot e w2).0,
        record { world = (V.etcd.snapshot e w2).1; self = made_at c t },
      ))
        × (label cluster_label (made_at c t).metadata.labels
            ≡ (get_backup_schedule c).metadata.name)
        × ((u : ℕ) → (made_at c u).metadata.name ≡ (made_at c t).metadata.name → u ≡ t)
  unfolding take_snapshot get_backup get_backup_schedule label decimal_int
  take_snapshot-made_at c d t w found connected = (
    ground (arith, eq_iff cluster_label cluster_label),
    ground arith,
    λ u same. decimal-injective u t (
        append_cancel_left "-" (decimal u) (decimal t)
          (append_cancel_left c.metadata.name ("-" <> decimal u) ("-" <> decimal t) same)),
  )

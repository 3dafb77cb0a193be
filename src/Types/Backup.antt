-- ===== src/Types/Backup.antt =====
-- api/v1alpha1/backup_types.go and backupschedule_types.go.
use etcdops.Base.{String, ◌<>◌, [], ◌∷◌, str_eq, if◌then◌else◌}
use etcdops.Base.Int.{ℤ}
use etcdops.Base.Text.{decimal_int}
use etcdops.Kube.{ObjectMeta, Labels, Time, Duration, zero_time, new_meta}
use etcdops.Types.Member.{cluster_label}

pub record BackupSpec : Type 0 where
  pub retention_period : Duration

pub record BackupStatus : Type 0 where
  pub finished : Time
  pub url : String

pub record Backup : Type 0 where
  pub metadata : ObjectMeta
  pub spec : BackupSpec
  pub status : BackupStatus

pub record BackupScheduleSpec : Type 0 where
  pub creation_period : Duration
  pub retention_period : Duration

-- The status has no fields.
pub record BackupSchedule : Type 0 where
  pub metadata : ObjectMeta
  pub spec : BackupScheduleSpec

-- `labels[key]`: a missing key reads as the empty text.
unfoldable pub label : String → Labels → String
label key [] = ""
label key ((k, v) ∷ labels) = if str_eq k key then v else label key labels

-- `GetBackup`, with the seconds of `time.Now().Unix()`.
unfoldable pub get_backup : BackupSchedule → ℤ → Backup
get_backup s unix_now = record {
  metadata =
      record (new_meta (s.metadata.name <> ("-" <> decimal_int unix_now)) s.metadata.namespace) {
        labels = (cluster_label, s.metadata.name) ∷ [];
      };
  spec = record { retention_period = s.spec.retention_period };
  status = record { finished = zero_time; url = "" };
}

-- ===== src/Types/Pretty.antt =====
-- api/v1alpha1/cluster_types.go and backup_types.go: the forms in which clusters and backups are
-- printed, as rows of a table and as objects for JSON and YAML. How a duration and an instant are
-- written is the libraries': the parameter `Formats`.
use etcdops.Base.{String, List, [], ◌∷◌}
use etcdops.Base.Int.{ℤ}
use etcdops.Kube.{Time, Duration}
use etcdops.Types.Member.{cluster_label}
use etcdops.Types.Cluster.{Cluster, ClusterPhase, ClusterStatus}
use etcdops.Types.Backup.{Backup, label}

pub record Formats : Type 0 where
  -- `duration.HumanDuration`
  pub human_duration : Duration → String
  -- `Time.Format`, with its layout
  pub format_time : String → Time → String

abbrev pub time_layout : String
time_layout = "2006-01-02 15:04:05"

-- An entry of a `table.Row`
pub data Cell : Type 0 where
  text : String → Cell
  number : ℤ → Cell
  phase : ClusterPhase → Cell

abbrev pub Row : Type 0
Row = List Cell

pub record PrettyClusterSpec : Type 0 where
  pub size : ℤ
  pub version : String
  pub backup : String
  pub backup_creation_period : String
  pub backup_retention_period : String

pub record PrettyCluster : Type 0 where
  pub name : String
  pub namespace : String
  pub spec : PrettyClusterSpec
  pub status : ClusterStatus

pub record PrettyBackup : Type 0 where
  pub name : String
  pub namespace : String
  pub cluster : String
  pub retention_period : String
  pub finished : String
  pub url : String

unfoldable pub cluster_header : Row
cluster_header = text "NAME" ∷ text "CREATED AT" ∷ text "SIZE" ∷ text "VERSION" ∷ text "STATUS" ∷ []

unfoldable pub backup_header : Row
backup_header =
    text "NAME" ∷ text "CLUSTER" ∷ text "FINISHED AT" ∷ text "RETENTION" ∷ text "URL" ∷ []

module _ (F : Formats) where
  unfoldable pub prettify_cluster : Cluster → PrettyCluster
  prettify_cluster c = record {
    name = c.metadata.name;
    namespace = c.metadata.namespace;
    spec = record {
      version = c.spec.version;
      size = c.spec.size;
      backup = c.spec.backup;
      backup_creation_period = F.human_duration c.spec.backup_creation_period;
      backup_retention_period = F.human_duration c.spec.backup_retention_period;
    };
    status = c.status;
  }

  unfoldable pub prettify_clusters : List Cluster → List PrettyCluster
  unfolding prettify_cluster
  prettify_clusters [] = []
  prettify_clusters (c ∷ cs) = prettify_cluster c ∷ prettify_clusters cs

  -- The row of one cluster, and the loop of `Rows`
  unfoldable pub cluster_row : Cluster → Row
  cluster_row c =
      text c.metadata.name
      ∷ text (F.format_time time_layout c.metadata.creation_timestamp)
      ∷ number c.spec.size
      ∷ text c.spec.version
      ∷ phase c.status.phase
      ∷ []

  unfoldable pub cluster_rows : List Cluster → List Row
  unfolding cluster_row
  cluster_rows [] = []
  cluster_rows (c ∷ cs) = cluster_row c ∷ cluster_rows cs

  unfoldable pub prettify_backup : Backup → PrettyBackup
  prettify_backup b = record {
    name = b.metadata.name;
    namespace = b.metadata.namespace;
    cluster = label cluster_label b.metadata.labels;
    retention_period = F.human_duration b.spec.retention_period;
    finished = F.format_time time_layout b.status.finished;
    url = b.status.url;
  }

  unfoldable pub prettify_backups : List Backup → List PrettyBackup
  unfolding prettify_backup
  prettify_backups [] = []
  prettify_backups (b ∷ bs) = prettify_backup b ∷ prettify_backups bs

  unfoldable pub backup_row : Backup → Row
  backup_row b =
      text b.metadata.name
      ∷ text (label cluster_label b.metadata.labels)
      ∷ text (F.format_time time_layout b.status.finished)
      ∷ text (F.human_duration b.spec.retention_period)
      ∷ text b.status.url
      ∷ []

  unfoldable pub backup_rows : List Backup → List Row
  unfolding backup_row
  backup_rows [] = []
  backup_rows (b ∷ bs) = backup_row b ∷ backup_rows bs

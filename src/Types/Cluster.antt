-- ===== src/Types/Cluster.antt =====
-- api/v1alpha1/cluster_types.go: clusters, and what the operator builds for one of them.
pub mod Endpoints
pub mod Names
use etcdops.Base.{
  ℕ, zero, suc, String, ◌<>◌, Bool, true, false, not, ◌&&◌, ◌||◌, List, [], ◌∷◌, none, str_eq,
}
use etcdops.Base.Int.{ℤ, pos_part}
use etcdops.Base.Text.{decimal}
use etcdops.Kube.{
  ObjectMeta, Finalizer, Duration, Certificate, RotationPolicy, KeyAlgorithm, KeyEncoding, Issuer,
  Service, new_meta, zero_time,
}
use etcdops.Types.Member.{Member, MemberPhase, advertise_client_url, cluster_label}
use etcdops.Types.Backup.{BackupSchedule}

abbrev pub cleanup_secret_finalizer : Finalizer
cleanup_secret_finalizer = Finalizer.named "cleanup-secret.operator.etcd.io"

pub record ClusterSpec : Type 0 where
  pub version : String
  pub size : ℤ
  pub backup : String
  pub backup_creation_period : Duration
  pub backup_retention_period : Duration

-- `unset` is the empty text; `other` is a text that is none of the constants.
pub data ClusterPhase : Type 0 where
  unset creating running updating minor_failure failed : ClusterPhase
  other : String → ClusterPhase

abbrev pub is_unset : ClusterPhase → Bool
is_unset ClusterPhase.unset = true
is_unset _ = false

abbrev pub is_running : ClusterPhase → Bool
is_running ClusterPhase.running = true
is_running _ = false

abbrev pub is_updating : ClusterPhase → Bool
is_updating ClusterPhase.updating = true
is_updating _ = false

abbrev pub is_minor_failure : ClusterPhase → Bool
is_minor_failure ClusterPhase.minor_failure = true
is_minor_failure _ = false

pub record ClusterStatus : Type 0 where
  pub phase : ClusterPhase
  pub version : String
  pub certificate_expires : Bool

pub record Cluster : Type 0 where
  pub metadata : ObjectMeta
  pub spec : ClusterSpec
  pub status : ClusterStatus

-- The metadata that every derived object has: its name, the cluster's namespace, and foreground
-- deletion.
abbrev pub dependent_meta : String → String → ObjectMeta
dependent_meta name namespace = record (new_meta name namespace) {
  finalizers = Finalizer.delete_dependents ∷ [];
}

unfoldable pub get_ca_secret_name : Cluster → String
get_ca_secret_name c = c.metadata.name <> "-ca"

unfoldable pub get_common_name : Cluster → String
get_common_name c = c.metadata.name <> ("." <> (c.metadata.namespace <> ".svc.cluster.local"))

unfoldable pub get_ca_certificate : Cluster → String → Certificate
get_ca_certificate c cluster_issuer = record {
  metadata = dependent_meta c.metadata.name c.metadata.namespace;
  is_ca = true;
  common_name = get_common_name c;
  secret_name = get_ca_secret_name c;
  secret_labels = (cluster_label, c.metadata.name) ∷ [];
  private_key = record {
    rotation_policy = RotationPolicy.unset;
    algorithm = KeyAlgorithm.ecdsa;
    encoding = KeyEncoding.unset;
    size = 256;
  };
  issuer_ref = record { name = cluster_issuer; kind = "ClusterIssuer"; group = "cert-manager.io" };
  dns_names = [];
  not_before = none;
}

unfoldable pub get_ca_issuer : Cluster → Issuer
get_ca_issuer c = record {
  metadata = dependent_meta c.metadata.name c.metadata.namespace;
  ca_secret_name = get_ca_secret_name c;
}

unfoldable pub get_service : Cluster → Service
get_service c = record {
  metadata = dependent_meta c.metadata.name c.metadata.namespace;
  selector = ("name", c.metadata.name) ∷ [];
  cluster_ip = "None";
  publish_not_ready_addresses = true;
  ports =
      record { name = "etcd-server-ssl"; port = 2380 }
      ∷ record { name = "etcd-client-ssl"; port = 2379 }
      ∷ [];
}

unfoldable pub get_backup_schedule : Cluster → BackupSchedule
get_backup_schedule c = record {
  metadata = dependent_meta c.metadata.name c.metadata.namespace;
  spec = record {
    creation_period = c.spec.backup_creation_period;
    retention_period = c.spec.backup_retention_period;
  };
}

unfoldable pub get_member_name : Cluster → ℕ → String
get_member_name c num = c.metadata.name <> ("-" <> decimal num)

-- `for num := i; …; num++` with `n` rounds left; a negative size makes no round.
unfoldable pub member_names : Cluster → ℕ → ℕ → List String
member_names c zero i = []
member_names c (suc n) i = get_member_name c i ∷ member_names c n (suc i)

unfoldable pub get_member : Cluster → ℕ → Member
get_member c num = record {
  metadata = dependent_meta (get_member_name c num) c.metadata.namespace;
  spec = record {
    version = c.spec.version;
    backup = c.spec.backup;
    cluster_name = c.metadata.name;
    cluster_token = c.metadata.uid;
    members = member_names c (pos_part c.spec.size) 0;
    broken = false;
    certificate_update = false;
  };
  status = record {
    version = "";
    phase = MemberPhase.unset;
    failed_time = zero_time;
    certificate_expires = false;
  };
}

unfoldable pub should_update : Cluster → Bool
should_update c =
    is_running c.status.phase
    && (not (str_eq c.status.version c.spec.version) || c.status.certificate_expires)

unfoldable pub endpoints_from : Cluster → ℕ → ℕ → List String
endpoints_from c zero i = []
endpoints_from c (suc n) i =
    advertise_client_url (get_member_name c i) c.metadata.namespace c.metadata.name
    ∷ endpoints_from c n (suc i)

unfoldable pub get_endpoints : Cluster → List String
unfolding endpoints_from
get_endpoints c = endpoints_from c (pos_part c.spec.size) 0

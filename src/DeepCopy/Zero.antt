-- ===== src/DeepCopy/Zero.antt =====
-- The zero values of the types of api/v1alpha1, which `new` and `make` fill memory with.
use etcdops.Base.{false, none}
use etcdops.Base.Int.{pos}
use etcdops.Kube.{zero_time}
use etcdops.Types.Backup.{BackupSpec, BackupScheduleSpec, BackupStatus}
use etcdops.Types.Cluster.{ClusterSpec, ClusterStatus, ClusterPhase}
use etcdops.Types.Member.{MemberStatus, MemberPhase}
use etcdops.Types.Pretty.{PrettyBackup, PrettyCluster, PrettyClusterSpec}
use etcdops.DeepCopy.Values.{TypeMeta, Types, ObjectOf, MemberSpecValue, ListValue}

abbrev pub zero_type_meta : TypeMeta
zero_type_meta = record { kind = ""; api_version = "" }

abbrev pub zero_backup_spec : BackupSpec
zero_backup_spec = record { retention_period = pos 0 }

abbrev pub zero_backup_status : BackupStatus
zero_backup_status = record { finished = zero_time; url = "" }

abbrev pub zero_backup_schedule_spec : BackupScheduleSpec
zero_backup_schedule_spec = record { creation_period = pos 0; retention_period = pos 0 }

abbrev pub zero_cluster_spec : ClusterSpec
zero_cluster_spec = record {
  version = "";
  size = pos 0;
  backup = "";
  backup_creation_period = pos 0;
  backup_retention_period = pos 0;
}

abbrev pub zero_cluster_status : ClusterStatus
zero_cluster_status = record {
  phase = ClusterPhase.unset;
  version = "";
  certificate_expires = false;
}

abbrev pub zero_member_spec : MemberSpecValue
zero_member_spec = record {
  version = "";
  backup = "";
  cluster_name = "";
  cluster_token = "";
  members = none;
  broken = false;
  certificate_update = false;
}

abbrev pub zero_member_status : MemberStatus
zero_member_status = record {
  version = "";
  phase = MemberPhase.unset;
  failed_time = zero_time;
  certificate_expires = false;
}

abbrev pub zero_pretty_backup : PrettyBackup
zero_pretty_backup = record {
  name = "";
  namespace = "";
  cluster = "";
  retention_period = "";
  finished = "";
  url = "";
}

abbrev pub zero_pretty_cluster_spec : PrettyClusterSpec
zero_pretty_cluster_spec = record {
  size = pos 0;
  version = "";
  backup = "";
  backup_creation_period = "";
  backup_retention_period = "";
}

abbrev pub zero_pretty_cluster : PrettyCluster
zero_pretty_cluster = record {
  name = "";
  namespace = "";
  spec = zero_pretty_cluster_spec;
  status = zero_cluster_status;
}

module _ (T : Types) where
  abbrev pub zero_object : {S U : Type 0} → S → U → ObjectOf T.Meta S U
  zero_object s u = record {
    type_meta = zero_type_meta;
    metadata = T.zero_meta;
    spec = s;
    status = u;
  }

  abbrev pub zero_list : ListValue T
  zero_list = record { type_meta = zero_type_meta; metadata = T.zero_list_meta; items = none }

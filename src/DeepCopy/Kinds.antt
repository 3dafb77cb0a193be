-- ===== src/DeepCopy/Kinds.antt =====
-- The types of api/v1alpha1 in memory.
use etcdops.Base.{String, Option, none, some, refl}
use etcdops.Types.Backup.{BackupSpec, BackupScheduleSpec, BackupStatus}
use etcdops.Types.Cluster.{ClusterSpec, ClusterStatus}
use etcdops.Types.Member.{MemberStatus}
use etcdops.Types.Pretty.{PrettyBackup, PrettyCluster, PrettyClusterSpec}
use etcdops.DeepCopy.Values.{
  Types, Cell, BackupValue, BackupScheduleValue, BackupScheduleStatus, ClusterValue, MemberValue,
  MemberSpecValue, ListValue,
}
use etcdops.DeepCopy.Memory.{Kind}
use etcdops.DeepCopy.Zero.{
  zero_backup_spec, zero_backup_status, zero_backup_schedule_spec, zero_cluster_spec,
  zero_cluster_status, zero_member_spec, zero_member_status, zero_pretty_backup,
  zero_pretty_cluster_spec, zero_pretty_cluster, zero_object, zero_list,
}

module _ (T : Types) where
  abbrev as_text : Cell T → Option (String)
  as_text (Cell.text x) = some x
  as_text _ = none

  abbrev as_backup : Cell T → Option (BackupValue T)
  as_backup (Cell.backup x) = some x
  as_backup _ = none

  abbrev as_backup_list : Cell T → Option (ListValue T)
  as_backup_list (Cell.backup_list x) = some x
  as_backup_list _ = none

  abbrev as_backup_schedule : Cell T → Option (BackupScheduleValue T)
  as_backup_schedule (Cell.backup_schedule x) = some x
  as_backup_schedule _ = none

  abbrev as_backup_schedule_list : Cell T → Option (ListValue T)
  as_backup_schedule_list (Cell.backup_schedule_list x) = some x
  as_backup_schedule_list _ = none

  abbrev as_backup_schedule_spec : Cell T → Option (BackupScheduleSpec)
  as_backup_schedule_spec (Cell.backup_schedule_spec x) = some x
  as_backup_schedule_spec _ = none

  abbrev as_backup_schedule_status : Cell T → Option (BackupScheduleStatus)
  as_backup_schedule_status (Cell.backup_schedule_status x) = some x
  as_backup_schedule_status _ = none

  abbrev as_backup_spec : Cell T → Option (BackupSpec)
  as_backup_spec (Cell.backup_spec x) = some x
  as_backup_spec _ = none

  abbrev as_backup_status : Cell T → Option (BackupStatus)
  as_backup_status (Cell.backup_status x) = some x
  as_backup_status _ = none

  abbrev as_cluster : Cell T → Option (ClusterValue T)
  as_cluster (Cell.cluster x) = some x
  as_cluster _ = none

  abbrev as_cluster_list : Cell T → Option (ListValue T)
  as_cluster_list (Cell.cluster_list x) = some x
  as_cluster_list _ = none

  abbrev as_cluster_spec : Cell T → Option (ClusterSpec)
  as_cluster_spec (Cell.cluster_spec x) = some x
  as_cluster_spec _ = none

  abbrev as_cluster_status : Cell T → Option (ClusterStatus)
  as_cluster_status (Cell.cluster_status x) = some x
  as_cluster_status _ = none

  abbrev as_member : Cell T → Option (MemberValue T)
  as_member (Cell.member x) = some x
  as_member _ = none

  abbrev as_member_list : Cell T → Option (ListValue T)
  as_member_list (Cell.member_list x) = some x
  as_member_list _ = none

  abbrev as_member_spec : Cell T → Option (MemberSpecValue)
  as_member_spec (Cell.member_spec x) = some x
  as_member_spec _ = none

  abbrev as_member_status : Cell T → Option (MemberStatus)
  as_member_status (Cell.member_status x) = some x
  as_member_status _ = none

  abbrev as_pretty_backup : Cell T → Option (PrettyBackup)
  as_pretty_backup (Cell.pretty_backup x) = some x
  as_pretty_backup _ = none

  abbrev as_pretty_cluster : Cell T → Option (PrettyCluster)
  as_pretty_cluster (Cell.pretty_cluster x) = some x
  as_pretty_cluster _ = none

  abbrev as_pretty_cluster_spec : Cell T → Option (PrettyClusterSpec)
  as_pretty_cluster_spec (Cell.pretty_cluster_spec x) = some x
  as_pretty_cluster_spec _ = none

  abbrev pub text_kind : Kind T String
  text_kind = record {
    zero_value = "";
    wrap = Cell.text;
    unwrap = as_text;
    unwrap_wrap = λ a. refl;
  }

  abbrev pub backup_kind : Kind T (BackupValue T)
  backup_kind = record {
    zero_value = zero_object T zero_backup_spec zero_backup_status;
    wrap = Cell.backup;
    unwrap = as_backup;
    unwrap_wrap = λ a. refl;
  }

  abbrev pub backup_list_kind : Kind T (ListValue T)
  backup_list_kind = record {
    zero_value = zero_list T;
    wrap = Cell.backup_list;
    unwrap = as_backup_list;
    unwrap_wrap = λ a. refl;
  }

  abbrev pub backup_schedule_kind : Kind T (BackupScheduleValue T)
  backup_schedule_kind = record {
    zero_value = zero_object T zero_backup_schedule_spec tt;
    wrap = Cell.backup_schedule;
    unwrap = as_backup_schedule;
    unwrap_wrap = λ a. refl;
  }

  abbrev pub backup_schedule_list_kind : Kind T (ListValue T)
  backup_schedule_list_kind = record {
    zero_value = zero_list T;
    wrap = Cell.backup_schedule_list;
    unwrap = as_backup_schedule_list;
    unwrap_wrap = λ a. refl;
  }

  abbrev pub backup_schedule_spec_kind : Kind T BackupScheduleSpec
  backup_schedule_spec_kind = record {
    zero_value = zero_backup_schedule_spec;
    wrap = Cell.backup_schedule_spec;
    unwrap = as_backup_schedule_spec;
    unwrap_wrap = λ a. refl;
  }

  abbrev pub backup_schedule_status_kind : Kind T BackupScheduleStatus
  backup_schedule_status_kind = record {
    zero_value = tt;
    wrap = Cell.backup_schedule_status;
    unwrap = as_backup_schedule_status;
    unwrap_wrap = λ a. refl;
  }

  abbrev pub backup_spec_kind : Kind T BackupSpec
  backup_spec_kind = record {
    zero_value = zero_backup_spec;
    wrap = Cell.backup_spec;
    unwrap = as_backup_spec;
    unwrap_wrap = λ a. refl;
  }

  abbrev pub backup_status_kind : Kind T BackupStatus
  backup_status_kind = record {
    zero_value = zero_backup_status;
    wrap = Cell.backup_status;
    unwrap = as_backup_status;
    unwrap_wrap = λ a. refl;
  }

  abbrev pub cluster_kind : Kind T (ClusterValue T)
  cluster_kind = record {
    zero_value = zero_object T zero_cluster_spec zero_cluster_status;
    wrap = Cell.cluster;
    unwrap = as_cluster;
    unwrap_wrap = λ a. refl;
  }

  abbrev pub cluster_list_kind : Kind T (ListValue T)
  cluster_list_kind = record {
    zero_value = zero_list T;
    wrap = Cell.cluster_list;
    unwrap = as_cluster_list;
    unwrap_wrap = λ a. refl;
  }

  abbrev pub cluster_spec_kind : Kind T ClusterSpec
  cluster_spec_kind = record {
    zero_value = zero_cluster_spec;
    wrap = Cell.cluster_spec;
    unwrap = as_cluster_spec;
    unwrap_wrap = λ a. refl;
  }

  abbrev pub cluster_status_kind : Kind T ClusterStatus
  cluster_status_kind = record {
    zero_value = zero_cluster_status;
    wrap = Cell.cluster_status;
    unwrap = as_cluster_status;
    unwrap_wrap = λ a. refl;
  }

  abbrev pub member_kind : Kind T (MemberValue T)
  member_kind = record {
    zero_value = zero_object T zero_member_spec zero_member_status;
    wrap = Cell.member;
    unwrap = as_member;
    unwrap_wrap = λ a. refl;
  }

  abbrev pub member_list_kind : Kind T (ListValue T)
  member_list_kind = record {
    zero_value = zero_list T;
    wrap = Cell.member_list;
    unwrap = as_member_list;
    unwrap_wrap = λ a. refl;
  }

  abbrev pub member_spec_kind : Kind T MemberSpecValue
  member_spec_kind = record {
    zero_value = zero_member_spec;
    wrap = Cell.member_spec;
    unwrap = as_member_spec;
    unwrap_wrap = λ a. refl;
  }

  abbrev pub member_status_kind : Kind T MemberStatus
  member_status_kind = record {
    zero_value = zero_member_status;
    wrap = Cell.member_status;
    unwrap = as_member_status;
    unwrap_wrap = λ a. refl;
  }

  abbrev pub pretty_backup_kind : Kind T PrettyBackup
  pretty_backup_kind = record {
    zero_value = zero_pretty_backup;
    wrap = Cell.pretty_backup;
    unwrap = as_pretty_backup;
    unwrap_wrap = λ a. refl;
  }

  abbrev pub pretty_cluster_kind : Kind T PrettyCluster
  pretty_cluster_kind = record {
    zero_value = zero_pretty_cluster;
    wrap = Cell.pretty_cluster;
    unwrap = as_pretty_cluster;
    unwrap_wrap = λ a. refl;
  }

  abbrev pub pretty_cluster_spec_kind : Kind T PrettyClusterSpec
  pretty_cluster_spec_kind = record {
    zero_value = zero_pretty_cluster_spec;
    wrap = Cell.pretty_cluster_spec;
    unwrap = as_pretty_cluster_spec;
    unwrap_wrap = λ a. refl;
  }

-- ===== src/DeepCopy.antt =====
-- api/v1alpha1/zz_generated.deepcopy.go: the copies of API objects, in a memory with addresses.
-- `DeepCopy` and `DeepCopyObject` are here, and `DeepCopyInto` is in DeepCopy/Into.antt.
pub mod Deep
pub mod Fields
pub mod Interface
pub mod Into
pub mod Kinds
pub mod Loop
pub mod Memory
pub mod Objects
pub mod Slices
pub mod Tree
pub mod Values
pub mod View
pub mod Write
pub mod Zero
use etcdops.Base.{ℕ, String, Option, none, some}
use etcdops.Kube.{Time}
use etcdops.Types.Backup.{BackupSpec, BackupScheduleSpec, BackupStatus}
use etcdops.Types.Cluster.{ClusterSpec, ClusterStatus}
use etcdops.Types.Member.{MemberStatus}
use etcdops.Types.Pretty.{PrettyBackup, PrettyCluster, PrettyClusterSpec}
use etcdops.DeepCopy.Values.{
  Types, Slice, BackupValue, BackupScheduleValue, BackupScheduleStatus, ClusterValue, MemberValue,
  MemberSpecValue, ListValue,
}
use etcdops.DeepCopy.Memory.{Kind, M, pure, copy_slice, deep_copy, ◌>>=◌}
use etcdops.DeepCopy.Kinds.{
  text_kind, backup_kind, backup_list_kind, backup_schedule_kind, backup_schedule_list_kind,
  backup_schedule_spec_kind, backup_schedule_status_kind, backup_spec_kind, backup_status_kind,
  cluster_kind, cluster_list_kind, cluster_spec_kind, cluster_status_kind, member_kind,
  member_list_kind, member_spec_kind, member_status_kind, pretty_backup_kind, pretty_cluster_kind,
  pretty_cluster_spec_kind,
}
use etcdops.DeepCopy.Into.{
  Library, copy_backup_schedule_spec, copy_backup_schedule_status, copy_backup_spec,
  copy_backup_status, copy_cluster_spec, copy_cluster_status, copy_member_spec, copy_member_status,
  copy_pretty_backup, copy_pretty_cluster, copy_pretty_cluster_spec, copy_backup,
  copy_backup_schedule, copy_cluster, copy_member, copy_list, copy_backup_list,
  copy_backup_schedule_list, copy_cluster_list, copy_member_list,
}

module _ (T : Types) (L : Library T) where
  -- `DeepCopy`
  unfoldable pub deep_copy_backup : Option ℕ → M T (Option ℕ)
  unfolding deep_copy copy_backup
  deep_copy_backup = deep_copy (backup_kind T) (copy_backup T L)

  unfoldable pub deep_copy_backup_list : Option ℕ → M T (Option ℕ)
  unfolding deep_copy copy_backup_list
  deep_copy_backup_list = deep_copy (backup_list_kind T) (copy_backup_list T L)

  unfoldable pub deep_copy_backup_schedule : Option ℕ → M T (Option ℕ)
  unfolding deep_copy copy_backup_schedule
  deep_copy_backup_schedule = deep_copy (backup_schedule_kind T) (copy_backup_schedule T L)

  unfoldable pub deep_copy_backup_schedule_list : Option ℕ → M T (Option ℕ)
  unfolding deep_copy copy_backup_schedule_list
  deep_copy_backup_schedule_list =
      deep_copy (backup_schedule_list_kind T) (copy_backup_schedule_list T L)

  unfoldable pub deep_copy_backup_schedule_spec : Option ℕ → M T (Option ℕ)
  unfolding deep_copy copy_backup_schedule_spec
  deep_copy_backup_schedule_spec =
      deep_copy (backup_schedule_spec_kind T) (copy_backup_schedule_spec T L)

  unfoldable pub deep_copy_backup_schedule_status : Option ℕ → M T (Option ℕ)
  unfolding deep_copy copy_backup_schedule_status
  deep_copy_backup_schedule_status =
      deep_copy (backup_schedule_status_kind T) (copy_backup_schedule_status T L)

  unfoldable pub deep_copy_backup_spec : Option ℕ → M T (Option ℕ)
  unfolding deep_copy copy_backup_spec
  deep_copy_backup_spec = deep_copy (backup_spec_kind T) (copy_backup_spec T L)

  unfoldable pub deep_copy_backup_status : Option ℕ → M T (Option ℕ)
  unfolding deep_copy copy_backup_status
  deep_copy_backup_status = deep_copy (backup_status_kind T) (copy_backup_status T L)

  unfoldable pub deep_copy_cluster : Option ℕ → M T (Option ℕ)
  unfolding deep_copy copy_cluster
  deep_copy_cluster = deep_copy (cluster_kind T) (copy_cluster T L)

  unfoldable pub deep_copy_cluster_list : Option ℕ → M T (Option ℕ)
  unfolding deep_copy copy_cluster_list
  deep_copy_cluster_list = deep_copy (cluster_list_kind T) (copy_cluster_list T L)

  unfoldable pub deep_copy_cluster_spec : Option ℕ → M T (Option ℕ)
  unfolding deep_copy copy_cluster_spec
  deep_copy_cluster_spec = deep_copy (cluster_spec_kind T) (copy_cluster_spec T L)

  unfoldable pub deep_copy_cluster_status : Option ℕ → M T (Option ℕ)
  unfolding deep_copy copy_cluster_status
  deep_copy_cluster_status = deep_copy (cluster_status_kind T) (copy_cluster_status T L)

  unfoldable pub deep_copy_member : Option ℕ → M T (Option ℕ)
  unfolding deep_copy copy_member
  deep_copy_member = deep_copy (member_kind T) (copy_member T L)

  unfoldable pub deep_copy_member_list : Option ℕ → M T (Option ℕ)
  unfolding deep_copy copy_member_list
  deep_copy_member_list = deep_copy (member_list_kind T) (copy_member_list T L)

  unfoldable pub deep_copy_member_spec : Option ℕ → M T (Option ℕ)
  unfolding deep_copy copy_member_spec
  deep_copy_member_spec = deep_copy (member_spec_kind T) (copy_member_spec T L)

  unfoldable pub deep_copy_member_status : Option ℕ → M T (Option ℕ)
  unfolding deep_copy copy_member_status
  deep_copy_member_status = deep_copy (member_status_kind T) (copy_member_status T L)

  unfoldable pub deep_copy_pretty_backup : Option ℕ → M T (Option ℕ)
  unfolding deep_copy copy_pretty_backup
  deep_copy_pretty_backup = deep_copy (pretty_backup_kind T) (copy_pretty_backup T L)

  unfoldable pub deep_copy_pretty_cluster : Option ℕ → M T (Option ℕ)
  unfolding deep_copy copy_pretty_cluster
  deep_copy_pretty_cluster = deep_copy (pretty_cluster_kind T) (copy_pretty_cluster T L)

  unfoldable pub deep_copy_pretty_cluster_spec : Option ℕ → M T (Option ℕ)
  unfolding deep_copy copy_pretty_cluster_spec
  deep_copy_pretty_cluster_spec =
      deep_copy (pretty_cluster_spec_kind T) (copy_pretty_cluster_spec T L)

-- A `runtime.Object` of this package: a pointer, which can be nil, with its type
pub data RuntimeObject : Type 0 where
  backup : Option ℕ → RuntimeObject
  backup_list : Option ℕ → RuntimeObject
  backup_schedule : Option ℕ → RuntimeObject
  backup_schedule_list : Option ℕ → RuntimeObject
  cluster : Option ℕ → RuntimeObject
  cluster_list : Option ℕ → RuntimeObject
  member : Option ℕ → RuntimeObject
  member_list : Option ℕ → RuntimeObject

module _ (T : Types) (L : Library T) where
  -- `if c := in.DeepCopy(); c != nil { return c }; return nil`: `none` is the nil interface.
  unfoldable pub as_object : (Option ℕ → RuntimeObject) → Option ℕ → M T (Option RuntimeObject)
  as_object object none = pure none
  as_object object (some c) = pure (some (object (some c)))

  -- `DeepCopyObject`
  unfoldable pub deep_copy_backup_object : Option ℕ → M T (Option RuntimeObject)
  unfolding deep_copy_backup as_object
  deep_copy_backup_object p = do c ← deep_copy_backup T L p; as_object RuntimeObject.backup c

  unfoldable pub deep_copy_backup_list_object : Option ℕ → M T (Option RuntimeObject)
  unfolding deep_copy_backup_list as_object
  deep_copy_backup_list_object p = do
    c ← deep_copy_backup_list T L p
    as_object RuntimeObject.backup_list c

  unfoldable pub deep_copy_backup_schedule_object : Option ℕ → M T (Option RuntimeObject)
  unfolding deep_copy_backup_schedule as_object
  deep_copy_backup_schedule_object p = do
    c ← deep_copy_backup_schedule T L p
    as_object RuntimeObject.backup_schedule c

  unfoldable pub deep_copy_backup_schedule_list_object : Option ℕ → M T (Option RuntimeObject)
  unfolding deep_copy_backup_schedule_list as_object
  deep_copy_backup_schedule_list_object p = do
    c ← deep_copy_backup_schedule_list T L p
    as_object RuntimeObject.backup_schedule_list c

  unfoldable pub deep_copy_cluster_object : Option ℕ → M T (Option RuntimeObject)
  unfolding deep_copy_cluster as_object
  deep_copy_cluster_object p = do c ← deep_copy_cluster T L p; as_object RuntimeObject.cluster c

  unfoldable pub deep_copy_cluster_list_object : Option ℕ → M T (Option RuntimeObject)
  unfolding deep_copy_cluster_list as_object
  deep_copy_cluster_list_object p = do
    c ← deep_copy_cluster_list T L p
    as_object RuntimeObject.cluster_list c

  unfoldable pub deep_copy_member_object : Option ℕ → M T (Option RuntimeObject)
  unfolding deep_copy_member as_object
  deep_copy_member_object p = do c ← deep_copy_member T L p; as_object RuntimeObject.member c

  unfoldable pub deep_copy_member_list_object : Option ℕ → M T (Option RuntimeObject)
  unfolding deep_copy_member_list as_object
  deep_copy_member_list_object p = do
    c ← deep_copy_member_list T L p
    as_object RuntimeObject.member_list c

  -- The call through the interface
  unfoldable pub deep_copy_object : RuntimeObject → M T (Option RuntimeObject)
  unfolding deep_copy_backup_object deep_copy_backup_list_object deep_copy_backup_schedule_object
      deep_copy_backup_schedule_list_object deep_copy_cluster_object deep_copy_cluster_list_object
      deep_copy_member_object deep_copy_member_list_object
  deep_copy_object (RuntimeObject.backup p) = deep_copy_backup_object p
  deep_copy_object (RuntimeObject.backup_list p) = deep_copy_backup_list_object p
  deep_copy_object (RuntimeObject.backup_schedule p) = deep_copy_backup_schedule_object p
  deep_copy_object (RuntimeObject.backup_schedule_list p) = deep_copy_backup_schedule_list_object p
  deep_copy_object (RuntimeObject.cluster p) = deep_copy_cluster_object p
  deep_copy_object (RuntimeObject.cluster_list p) = deep_copy_cluster_list_object p
  deep_copy_object (RuntimeObject.member p) = deep_copy_member_object p
  deep_copy_object (RuntimeObject.member_list p) = deep_copy_member_list_object p

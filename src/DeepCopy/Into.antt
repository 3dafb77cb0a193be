-- ===== src/DeepCopy/Into.antt =====
-- `DeepCopyInto` of every type (api/v1alpha1/zz_generated.deepcopy.go). It writes all of `*out` in its
-- first statement, so its model takes the value of `*in` and answers with the value that `*out` has at
-- the end; `in` and `out` are different objects, as in every call. `TypeMeta` and the fields that no
-- statement names are those of `*out = *in`.
use etcdops.Kube.{Time}
use etcdops.Types.Backup.{BackupSpec, BackupScheduleSpec, BackupStatus}
use etcdops.Types.Cluster.{ClusterSpec, ClusterStatus}
use etcdops.Types.Member.{MemberStatus}
use etcdops.Types.Pretty.{PrettyBackup, PrettyCluster, PrettyClusterSpec}
use etcdops.DeepCopy.Values.{
  Types, BackupValue, BackupScheduleValue, BackupScheduleStatus, ClusterValue, MemberValue,
  MemberSpecValue, ListValue,
}
use etcdops.DeepCopy.Memory.{Kind, M, pure, copy_slice, ◌>>=◌}
use etcdops.DeepCopy.Kinds.{text_kind, backup_kind, backup_schedule_kind, cluster_kind, member_kind}

-- `DeepCopyInto` of apimachinery's types
pub record Library (T : Types) : Type 0 where
  pub copy_meta : T.Meta → M T T.Meta
  pub copy_list_meta : T.ListMeta → M T T.ListMeta
  pub copy_time : Time → Time

module _ (T : Types) (L : Library T) where
  -- `DeepCopyInto`
  unfoldable pub copy_backup_schedule_spec : BackupScheduleSpec → M T BackupScheduleSpec
  copy_backup_schedule_spec s = pure s

  unfoldable pub copy_backup_schedule_status : BackupScheduleStatus → M T BackupScheduleStatus
  copy_backup_schedule_status s = pure s

  unfoldable pub copy_backup_spec : BackupSpec → M T BackupSpec
  copy_backup_spec s = pure s

  unfoldable pub copy_backup_status : BackupStatus → M T BackupStatus
  copy_backup_status s = pure (record s { finished = L.copy_time s.finished })

  unfoldable pub copy_cluster_spec : ClusterSpec → M T ClusterSpec
  copy_cluster_spec s = pure s

  unfoldable pub copy_cluster_status : ClusterStatus → M T ClusterStatus
  copy_cluster_status s = pure s

  unfoldable pub copy_member_spec : MemberSpecValue → M T MemberSpecValue
  unfolding copy_slice
  copy_member_spec s = do
    members ← copy_slice (text_kind T) pure s.members
    pure (record s { members = members })

  unfoldable pub copy_member_status : MemberStatus → M T MemberStatus
  copy_member_status s = pure (record s { failed_time = L.copy_time s.failed_time })

  unfoldable pub copy_pretty_backup : PrettyBackup → M T PrettyBackup
  copy_pretty_backup b = pure b

  unfoldable pub copy_pretty_cluster : PrettyCluster → M T PrettyCluster
  copy_pretty_cluster c = pure c

  unfoldable pub copy_pretty_cluster_spec : PrettyClusterSpec → M T PrettyClusterSpec
  copy_pretty_cluster_spec s = pure s

  unfoldable pub copy_backup : BackupValue T → M T (BackupValue T)
  unfolding copy_backup_status
  copy_backup b = do
    metadata ← L.copy_meta b.metadata
    status ← copy_backup_status b.status
    pure (record b { metadata = metadata; status = status })

  unfoldable pub copy_backup_schedule : BackupScheduleValue T → M T (BackupScheduleValue T)
  copy_backup_schedule s = do
    metadata ← L.copy_meta s.metadata
    pure (record s { metadata = metadata })

  unfoldable pub copy_cluster : ClusterValue T → M T (ClusterValue T)
  copy_cluster c = do metadata ← L.copy_meta c.metadata; pure (record c { metadata = metadata })

  unfoldable pub copy_member : MemberValue T → M T (MemberValue T)
  unfolding copy_member_spec copy_member_status
  copy_member x = do
    metadata ← L.copy_meta x.metadata
    spec ← copy_member_spec x.spec
    status ← copy_member_status x.status
    pure (record x { metadata = metadata; spec = spec; status = status })

  -- The statements that the lists share
  unfoldable pub copy_list : {A : Type 0} → Kind T A → (A → M T A) → ListValue T → M T (ListValue T)
  unfolding copy_slice
  copy_list K copy l = do
    metadata ← L.copy_list_meta l.metadata
    items ← copy_slice K copy l.items
    pure (record l { metadata = metadata; items = items })

  unfoldable pub copy_backup_list : ListValue T → M T (ListValue T)
  unfolding copy_list copy_backup
  copy_backup_list = copy_list (backup_kind T) copy_backup

  unfoldable pub copy_backup_schedule_list : ListValue T → M T (ListValue T)
  unfolding copy_list copy_backup_schedule
  copy_backup_schedule_list = copy_list (backup_schedule_kind T) copy_backup_schedule

  unfoldable pub copy_cluster_list : ListValue T → M T (ListValue T)
  unfolding copy_list copy_cluster
  copy_cluster_list = copy_list (cluster_kind T) copy_cluster

  unfoldable pub copy_member_list : ListValue T → M T (ListValue T)
  unfolding copy_list copy_member
  copy_member_list = copy_list (member_kind T) copy_member

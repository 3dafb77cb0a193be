-- ===== src/DeepCopy/Tree.antt =====
-- What an API object behind `runtime.Object` reads as (api/v1alpha1/zz_generated.deepcopy.go).
use etcdops.Base.{Option, none, some}
use etcdops.DeepCopy.Values.{Types}
use etcdops.DeepCopy.Memory.{Memory}
use etcdops.DeepCopy.Kinds.{
  backup_kind, backup_list_kind, backup_schedule_kind, backup_schedule_list_kind, cluster_kind,
  cluster_list_kind, member_kind, member_list_kind,
}
use etcdops.DeepCopy.View.{
  Reads, view_pointer, view_backup, view_backup_schedule, view_cluster, view_member, view_list_of,
  ListTree, BackupTree, BackupScheduleTree, ClusterTree, MemberTree,
}
use etcdops.DeepCopy.{RuntimeObject}

module _ (T : Types) where
  -- What an object of the interface reads as
  pub data Tree : Type 0 where
    backup : BackupTree T → Tree
    backup_list : ListTree T (BackupTree T) → Tree
    backup_schedule : BackupScheduleTree T → Tree
    backup_schedule_list : ListTree T (BackupScheduleTree T) → Tree
    cluster : ClusterTree T → Tree
    cluster_list : ListTree T (ClusterTree T) → Tree
    member : MemberTree T → Tree
    member_list : ListTree T (MemberTree T) → Tree

  -- A nil pointer and the nil interface read as nothing.
  abbrev pub under : {A : Type 0} → (A → Tree) → Option (Option A) → Option (Option Tree)
  under f none = none
  under f (some none) = some none
  under f (some (some a)) = some (some (f a))

module _ {T : Types} (R : Reads T) where
  unfoldable pub view_runtime : RuntimeObject → Memory T → Option (Option (Tree T))
  view_runtime (RuntimeObject.backup p) m =
      under T (Tree.backup) (view_pointer (backup_kind T) (view_backup R) p m)
  view_runtime (RuntimeObject.backup_list p) m =
      under T (Tree.backup_list)
        (view_pointer (backup_list_kind T) (view_list_of R (backup_kind T) (view_backup R)) p m)
  view_runtime (RuntimeObject.backup_schedule p) m =
      under T (Tree.backup_schedule)
        (view_pointer (backup_schedule_kind T) (view_backup_schedule R) p m)
  view_runtime (RuntimeObject.backup_schedule_list p) m = under T (Tree.backup_schedule_list) (
      view_pointer (backup_schedule_list_kind T)
        (view_list_of R (backup_schedule_kind T) (view_backup_schedule R)) p m)
  view_runtime (RuntimeObject.cluster p) m =
      under T (Tree.cluster) (view_pointer (cluster_kind T) (view_cluster R) p m)
  view_runtime (RuntimeObject.cluster_list p) m =
      under T (Tree.cluster_list)
        (view_pointer (cluster_list_kind T) (view_list_of R (cluster_kind T) (view_cluster R)) p m)
  view_runtime (RuntimeObject.member p) m =
      under T (Tree.member) (view_pointer (member_kind T) (view_member R) p m)
  view_runtime (RuntimeObject.member_list p) m =
      under T (Tree.member_list)
        (view_pointer (member_list_kind T) (view_list_of R (member_kind T) (view_member R)) p m)

  unfoldable pub view_interface : Option RuntimeObject → Memory T → Option (Option (Tree T))
  unfolding view_runtime
  view_interface none m = some none
  view_interface (some o) m = view_runtime o m

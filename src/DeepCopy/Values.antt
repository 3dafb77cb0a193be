-- ===== src/DeepCopy/Values.antt =====
-- api/v1alpha1: the types of the API as Go holds them, with a slice where the models of Types/ have a
-- list. The metadata types of apimachinery are parameters, `Types`.
use etcdops.Base.{ℕ, String, Bool, List, Option}
use etcdops.Types.Backup.{BackupSpec, BackupScheduleSpec, BackupStatus}
use etcdops.Types.Cluster.{ClusterSpec, ClusterStatus}
use etcdops.Types.Member.{MemberStatus}
use etcdops.Types.Pretty.{PrettyBackup, PrettyCluster, PrettyClusterSpec}

-- `metav1.TypeMeta`
pub record TypeMeta : Type 0 where
  pub kind : String
  pub api_version : String

-- A struct with the fields `TypeMeta`, `ObjectMeta`, `Spec` and `Status`
pub record ObjectOf (M S U : Type 0) : Type 0 where
  pub type_meta : TypeMeta
  pub metadata : M
  pub spec : S
  pub status : U

-- A struct with the fields `TypeMeta`, `ListMeta` and `Items`
pub record ListOf (M I : Type 0) : Type 0 where
  pub type_meta : TypeMeta
  pub metadata : M
  pub items : I

-- `MemberSpec`, with `Members` of any form
pub record MemberSpecOf (I : Type 0) : Type 0 where
  pub version : String
  pub backup : String
  pub cluster_name : String
  pub cluster_token : String
  pub members : I
  pub broken : Bool
  pub certificate_update : Bool

-- A slice that is not nil: the address of its first element, and its length
pub record Slice : Type 0 where
  pub first : ℕ
  pub len : ℕ

-- The types of apimachinery: what its values keep in memory, `ObjectMeta` and `ListMeta` as Go holds
-- them, and each as it reads, with all that it refers to
pub record Types : Type 1 where
  pub Part : Type 0
  pub Meta : Type 0
  pub ListMeta : Type 0
  pub MetaTree : Type 0
  pub ListMetaTree : Type 0
  pub zero_meta : Meta
  pub zero_list_meta : ListMeta

-- `BackupScheduleStatus` has no fields.
abbrev pub BackupScheduleStatus : Type 0
BackupScheduleStatus = Unit

abbrev pub Strings : Type 0
Strings = Option (List String)

abbrev pub MemberSpecValue : Type 0
MemberSpecValue = MemberSpecOf (Option Slice)

module _ (T : Types) where
  abbrev pub BackupValue : Type 0
  BackupValue = ObjectOf T.Meta BackupSpec BackupStatus

  abbrev pub BackupScheduleValue : Type 0
  BackupScheduleValue = ObjectOf T.Meta BackupScheduleSpec BackupScheduleStatus

  abbrev pub ClusterValue : Type 0
  ClusterValue = ObjectOf T.Meta ClusterSpec ClusterStatus

  abbrev pub MemberValue : Type 0
  MemberValue = ObjectOf T.Meta MemberSpecValue MemberStatus

  -- `BackupList`, `BackupScheduleList`, `ClusterList` and `MemberList` have the same fields, but for
  -- the type of the elements.
  abbrev pub ListValue : Type 0
  ListValue = ListOf T.ListMeta (Option Slice)

  -- What one address holds: a value of one type. The elements of an array stand one behind the other.
  pub data Cell : Type 0 where
    part : T.Part → Cell
    text : String → Cell
    backup : BackupValue → Cell
    backup_list : ListValue → Cell
    backup_schedule : BackupScheduleValue → Cell
    backup_schedule_list : ListValue → Cell
    backup_schedule_spec : BackupScheduleSpec → Cell
    backup_schedule_status : BackupScheduleStatus → Cell
    backup_spec : BackupSpec → Cell
    backup_status : BackupStatus → Cell
    cluster : ClusterValue → Cell
    cluster_list : ListValue → Cell
    cluster_spec : ClusterSpec → Cell
    cluster_status : ClusterStatus → Cell
    member : MemberValue → Cell
    member_list : ListValue → Cell
    member_spec : MemberSpecValue → Cell
    member_status : MemberStatus → Cell
    pretty_backup : PrettyBackup → Cell
    pretty_cluster : PrettyCluster → Cell
    pretty_cluster_spec : PrettyClusterSpec → Cell

-- ===== src/DeepCopy/View.antt =====
-- What an API object reads as, with all that it refers to in memory: the specification for
-- zz_generated.deepcopy.go (api/v1alpha1).
use etcdops.Base.{ℕ, zero, suc, List, [], ◌∷◌, Option, none, some}
use etcdops.Types.Backup.{BackupSpec, BackupScheduleSpec, BackupStatus}
use etcdops.Types.Cluster.{ClusterSpec, ClusterStatus}
use etcdops.Types.Member.{MemberStatus}
use etcdops.DeepCopy.Values.{
  Types, Slice, ObjectOf, ListOf, MemberSpecOf, BackupScheduleStatus, MemberSpecValue, Strings,
  BackupValue, BackupScheduleValue, ClusterValue, MemberValue, ListValue,
}
use etcdops.DeepCopy.Memory.{Memory, Kind, value}
use etcdops.DeepCopy.Kinds.{text_kind}

-- What a value reads as, or `none` if a pointer in it dangles
abbrev pub View : Types → Type 0 → Type 0 → Type 0
View T A B = A → Memory T → Option B

module _ {T : Types} where
  abbrev pub as_is : {A : Type 0} → View T A A
  as_is a m = some a

module _ {T : Types} {A B : Type 0} (K : Kind T A) (view : View T A B) where
  -- `n` elements, from an address on
  unfoldable pub view_items : ℕ → ℕ → Memory T → Option (List B)
  view_items zero p m = some []
  view_items (suc n) p m = elim (value K p m) [
    | none ↦ none
    | some a ↦ elim (view a m) [
      | none ↦ none
      | some b ↦ elim (view_items n (suc p) m) [ none ↦ none | some bs ↦ some (b ∷ bs) ]
    ]
  ]

  unfoldable pub view_slice : View T (Option Slice) (Option (List B))
  unfolding view_items
  view_slice none m = some none
  view_slice (some s) m = elim (view_items s.len s.first m) [
    | none ↦ none
    | some bs ↦ some (some bs)
  ]

  unfoldable pub view_pointer : View T (Option ℕ) (Option B)
  view_pointer none m = some none
  view_pointer (some p) m = elim (value K p m) [
    | none ↦ none
    | some a ↦ elim (view a m) [ none ↦ none | some b ↦ some (some b) ]
  ]

module _ {T : Types} {M M' S S' U U' : Type 0} (meta : View T M M') (spec : View T S S')
    (status : View T U U') where
  unfoldable pub view_object : View T (ObjectOf M S U) (ObjectOf M' S' U')
  view_object o m = elim (meta o.metadata m) [
    | none ↦ none
    | some x ↦ elim (spec o.spec m) [
      | none ↦ none
      | some y ↦ elim (status o.status m) [
        | none ↦ none
        | some z ↦ some (record { type_meta = o.type_meta; metadata = x; spec = y; status = z })
      ]
    ]
  ]

module _ {T : Types} {M M' I I' : Type 0} (meta : View T M M') (items : View T I I') where
  unfoldable pub view_list : View T (ListOf M I) (ListOf M' I')
  view_list l m = elim (meta l.metadata m) [
    | none ↦ none
    | some x ↦ elim (items l.items m) [
      | none ↦ none
      | some y ↦ some (record { type_meta = l.type_meta; metadata = x; items = y })
    ]
  ]

unfoldable pub view_member_spec : {T : Types} → View T MemberSpecValue (MemberSpecOf Strings)
unfolding view_slice
view_member_spec {T} s m = elim (view_slice (text_kind T) as_is s.members m) [
  | none ↦ none
  | some l ↦ some (record {
    version = s.version;
    backup = s.backup;
    cluster_name = s.cluster_name;
    cluster_token = s.cluster_token;
    members = l;
    broken = s.broken;
    certificate_update = s.certificate_update;
  })
]

-- What the metadata reads as, which apimachinery defines
pub record Reads (T : Types) : Type 0 where
  pub meta : View T T.Meta T.MetaTree
  pub list_meta : View T T.ListMeta T.ListMetaTree

module _ (T : Types) where
  abbrev pub BackupTree : Type 0
  BackupTree = ObjectOf T.MetaTree BackupSpec BackupStatus

  abbrev pub BackupScheduleTree : Type 0
  BackupScheduleTree = ObjectOf T.MetaTree BackupScheduleSpec BackupScheduleStatus

  abbrev pub ClusterTree : Type 0
  ClusterTree = ObjectOf T.MetaTree ClusterSpec ClusterStatus

  abbrev pub MemberTree : Type 0
  MemberTree = ObjectOf T.MetaTree (MemberSpecOf Strings) MemberStatus

  abbrev pub ListTree : Type 0 → Type 0
  ListTree A = ListOf T.ListMetaTree (Option (List A))

module _ {T : Types} (R : Reads T) where
  unfoldable pub view_backup : View T (BackupValue T) (BackupTree T)
  unfolding view_object
  view_backup = view_object R.meta as_is as_is

  unfoldable pub view_backup_schedule : View T (BackupScheduleValue T) (BackupScheduleTree T)
  unfolding view_object
  view_backup_schedule = view_object R.meta as_is as_is

  unfoldable pub view_cluster : View T (ClusterValue T) (ClusterTree T)
  unfolding view_object
  view_cluster = view_object R.meta as_is as_is

  unfoldable pub view_member : View T (MemberValue T) (MemberTree T)
  unfolding view_object view_member_spec
  view_member = view_object R.meta view_member_spec as_is

  unfoldable pub view_list_of :
      {A B : Type 0} → Kind T A → View T A B → View T (ListValue T) (ListTree T B)
  unfolding view_list view_slice
  view_list_of K view = view_list R.list_meta (view_slice K view)

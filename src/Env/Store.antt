-- ===== src/Env/Store.antt =====
-- What the API server documents of the members that it stores, for a pass that no other writer
-- interrupts and whose reads are up to date: a second assumption on the parameter `Env`, for the
-- theorems that follow the stored members from one pass to the next.
use etcdops.Base.{ℕ, String, List, [], ◌∷◌, ◌++◌, ◌⊎◌, Option, none, some, ◌≡◌, ◌≢◌}
use etcdops.Kube.{
  Labels, ok, err, ObjectMeta, NamespacedName, OperationResult, Certificate, Issuer, Service,
  VolumeClaim, Pod,
}
use etcdops.Types.Member.{Member}
use etcdops.Types.Backup.{Backup, BackupSchedule}
use etcdops.Types.Cluster.{Cluster}
use etcdops.Env.{Env, OwnerKind}

abbrev pub key_of : ObjectMeta → NamespacedName
key_of m = record { name = m.name; namespace = m.namespace }

pub record MemberStore (V : Env) : Type 0 where
  pub lookup : NamespacedName → V.World → Option Member
  -- An object is stored under its own name.
  pub lookup_keyed :
      {k : NamespacedName} {w : V.World} {m : Member} → lookup k w ≡ some m → key_of m.metadata ≡ k
  -- `SetControllerReference` adds an owner and nothing else.
  pub reference_keeps_key :
      {o : OwnerKind} {owner meta meta' : ObjectMeta}
      → V.set_controller_reference o owner meta ≡ ok meta'
      → key_of meta' ≡ key_of meta
  -- `CreateOrUpdate` of an object that exists, with nothing to change, answers with it.
  pub create_or_update_reads :
      {a m x : Member} {mutate : Unit {0} → Option V.Error} {op : OperationResult} {w : V.World}
      → lookup (key_of a.metadata) w ≡ some m
      → mutate tt ≡ none
      → (V.members.create_or_update a mutate w).0 ≡ ok (x, op)
      → x ≡ m
  pub create_or_update_keeps :
      {a m : Member} {mutate : Unit {0} → Option V.Error} {w : V.World}
      → lookup (key_of a.metadata) w ≡ some m
      → mutate tt ≡ none
      → (k : NamespacedName) → lookup k (V.members.create_or_update a mutate w).1 ≡ lookup k w
  -- `Update` writes the spec; the status is a subresource, and stays.
  pub update_writes :
      {a m x : Member} {w : V.World}
      → lookup (key_of a.metadata) w ≡ some m
      → (V.members.update a w).0 ≡ ok x
      → (x.spec ≡ a.spec)
        × (x.status ≡ m.status)
        × (lookup (key_of a.metadata) (V.members.update a w).1 ≡ some x)
  pub update_refused :
      {a : Member} {e : V.Error} {w : V.World}
      → (V.members.update a w).0 ≡ err e
      → (k : NamespacedName) → lookup k (V.members.update a w).1 ≡ lookup k w
  pub update_keeps_others :
      {a : Member} {w : V.World} {k : NamespacedName}
      → k ≢ key_of a.metadata
      → lookup k (V.members.update a w).1 ≡ lookup k w

-- The same for the other calls that a pass over a member makes
pub record MemberCalls (V : Env) (S : MemberStore V) : Type 0 where
  pub get_reads :
      {k : NamespacedName} {w : V.World} {m : Member}
      → (V.members.get k w).0 ≡ ok m
      → S.lookup k w ≡ some m
  pub get_keeps :
      (k : NamespacedName) (w : V.World) (j : NamespacedName)
      → S.lookup j (V.members.get k w).1 ≡ S.lookup j w
  -- An update of the status writes the status alone.
  pub status_writes :
      {a m x : Member} {w : V.World}
      → S.lookup (key_of a.metadata) w ≡ some m
      → (V.members.update_status a w).0 ≡ ok x
      → (x.spec ≡ m.spec)
        × (x.status ≡ a.status)
        × (S.lookup (key_of a.metadata) (V.members.update_status a w).1 ≡ some x)
  pub status_refused :
      {a : Member} {e : V.Error} {w : V.World}
      → (V.members.update_status a w).0 ≡ err e
      → (k : NamespacedName) → S.lookup k (V.members.update_status a w).1 ≡ S.lookup k w
  pub status_keeps_others :
      {a : Member} {w : V.World} {k : NamespacedName}
      → k ≢ key_of a.metadata
      → S.lookup k (V.members.update_status a w).1 ≡ S.lookup k w
  -- Calls on other kinds of objects leave the members as they are.
  pub now_keeps : (w : V.World) (j : NamespacedName) → S.lookup j (V.now w).1 ≡ S.lookup j w
  pub certificates_get_keeps :
      (k : NamespacedName) (w : V.World) (j : NamespacedName)
      → S.lookup j (V.certificates.get k w).1 ≡ S.lookup j w
  pub certificates_create_keeps :
      (a : Certificate) (mutate : Unit {0} → Option V.Error) (w : V.World) (j : NamespacedName)
      → S.lookup j (V.certificates.create_or_update a mutate w).1 ≡ S.lookup j w
  pub pvcs_create_keeps :
      (a : VolumeClaim) (mutate : Unit {0} → Option V.Error) (w : V.World) (j : NamespacedName)
      → S.lookup j (V.pvcs.create_or_update a mutate w).1 ≡ S.lookup j w
  pub pods_get_keeps :
      (k : NamespacedName) (w : V.World) (j : NamespacedName)
      → S.lookup j (V.pods.get k w).1 ≡ S.lookup j w
  pub pods_create_keeps :
      (a : Pod) (mutate : Unit {0} → Option V.Error) (w : V.World) (j : NamespacedName)
      → S.lookup j (V.pods.create_or_update a mutate w).1 ≡ S.lookup j w
  pub pods_delete_keeps :
      (a : Pod) (w : V.World) (j : NamespacedName) → S.lookup j (V.pods.delete a w).1 ≡ S.lookup j w
  pub pvcs_delete_keeps :
      (a : VolumeClaim) (w : V.World) (j : NamespacedName)
      → S.lookup j (V.pvcs.delete a w).1 ≡ S.lookup j w
  pub etcd_connect_keeps :
      (endpoints : List String) (w : V.World) (j : NamespacedName)
      → S.lookup j (V.etcd.connect endpoints w).1 ≡ S.lookup j w
  pub etcd_list_keeps :
      (etcd : V.etcd.Connection) (w : V.World) (j : NamespacedName)
      → S.lookup j (V.etcd.member_list etcd w).1 ≡ S.lookup j w
  pub etcd_remove_keeps :
      (etcd : V.etcd.Connection) (id : ℕ) (w : V.World) (j : NamespacedName)
      → S.lookup j (V.etcd.member_remove etcd id w).1 ≡ S.lookup j w
  pub etcd_add_keeps :
      (etcd : V.etcd.Connection) (urls : List String) (w : V.World) (j : NamespacedName)
      → S.lookup j (V.etcd.member_add etcd urls w).1 ≡ S.lookup j w

-- And for those that a pass over a cluster makes: calls on other kinds of objects leave the members
-- as they are.
pub record ClusterCalls (V : Env) (S : MemberStore V) : Type 0 where
  pub clusters_get_keeps :
      (k : NamespacedName) (w : V.World) (j : NamespacedName)
      → S.lookup j (V.clusters.get k w).1 ≡ S.lookup j w
  pub clusters_status_keeps :
      (a : Cluster) (w : V.World) (j : NamespacedName)
      → S.lookup j (V.clusters.update_status a w).1 ≡ S.lookup j w
  pub schedules_create_keeps :
      (a : BackupSchedule) (mutate : Unit {0} → Option V.Error) (w : V.World) (j : NamespacedName)
      → S.lookup j (V.backup_schedules.create_or_update a mutate w).1 ≡ S.lookup j w
  pub services_create_keeps :
      (a : Service) (mutate : Unit {0} → Option V.Error) (w : V.World) (j : NamespacedName)
      → S.lookup j (V.services.create_or_update a mutate w).1 ≡ S.lookup j w
  pub issuers_create_keeps :
      (a : Issuer) (mutate : Unit {0} → Option V.Error) (w : V.World) (j : NamespacedName)
      → S.lookup j (V.issuers.create_or_update a mutate w).1 ≡ S.lookup j w

-- What it documents of the writes to the backups with the label of a cluster. That a listing is up to
-- date is no part of it.
pub record BackupStore (V : Env) : Type 0 where
  pub backups_of : String → String → V.World → List Backup
  pub list_keeps :
      (namespace name : String) (labels : Labels) (w : V.World)
      → backups_of namespace name (V.backups.list namespace labels w).1
        ≡ backups_of namespace name w
  pub clock_keeps :
      (namespace name : String) (w : V.World)
      → backups_of namespace name (V.now w).1 ≡ backups_of namespace name w
  -- `Create` adds one object or none, also if it answers with an error.
  pub create_adds :
      (namespace name : String) (a : Backup) (w : V.World)
      → (backups_of namespace name (V.backups.create a w).1 ≡ backups_of namespace name w)
        ⊎ ((b : Backup) × (backups_of namespace name (V.backups.create a w).1
              ≡ backups_of namespace name w ++ (b ∷ [])))

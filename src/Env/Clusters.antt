-- ===== src/Env/Clusters.antt =====
-- What the API server documents of the clusters that it stores, for a pass that no other writer of
-- clusters interrupts: an assumption on the parameter `Env`, for the theorem on what a pass writes to
-- its own object.
use etcdops.Base.{◌⊎◌, Option, some, ◌≡◌}
use etcdops.Kube.{ok, NamespacedName, Certificate, Issuer, Service}
use etcdops.Types.Member.{Member}
use etcdops.Types.Backup.{BackupSchedule}
use etcdops.Types.Cluster.{Cluster}
use etcdops.Env.{Env}
use etcdops.Env.Store.{key_of}

pub record ClusterStore (V : Env) : Type 0 where
  pub lookup : NamespacedName → V.World → Option Cluster
  -- `Get` answers with the object of the name, and writes nothing.
  pub get_keyed :
      {k : NamespacedName} {w : V.World} {c : Cluster}
      → (V.clusters.get k w).0 ≡ ok c
      → key_of c.metadata ≡ k
  pub get_keeps :
      (k : NamespacedName) (w : V.World) (j : NamespacedName)
      → lookup j (V.clusters.get k w).1 ≡ lookup j w
  -- An update of the status writes the status alone, of the one object with the name, or it writes
  -- nothing, as when it is refused.
  pub status_writes :
      (a : Cluster) (w : V.World) (k : NamespacedName)
      → (lookup k (V.clusters.update_status a w).1 ≡ lookup k w)
        ⊎ ((c : Cluster) × (key_of a.metadata ≡ k)
            × (lookup k w ≡ some c)
            × (lookup k (V.clusters.update_status a w).1 ≡ some (record c { status = a.status })))
  -- Calls on other kinds of objects leave the clusters as they are.
  pub now_keeps : (w : V.World) (j : NamespacedName) → lookup j (V.now w).1 ≡ lookup j w
  pub schedules_create_keeps :
      (a : BackupSchedule) (mutate : Unit {0} → Option V.Error) (w : V.World) (j : NamespacedName)
      → lookup j (V.backup_schedules.create_or_update a mutate w).1 ≡ lookup j w
  pub services_create_keeps :
      (a : Service) (mutate : Unit {0} → Option V.Error) (w : V.World) (j : NamespacedName)
      → lookup j (V.services.create_or_update a mutate w).1 ≡ lookup j w
  pub certificates_create_keeps :
      (a : Certificate) (mutate : Unit {0} → Option V.Error) (w : V.World) (j : NamespacedName)
      → lookup j (V.certificates.create_or_update a mutate w).1 ≡ lookup j w
  pub issuers_create_keeps :
      (a : Issuer) (mutate : Unit {0} → Option V.Error) (w : V.World) (j : NamespacedName)
      → lookup j (V.issuers.create_or_update a mutate w).1 ≡ lookup j w
  pub members_create_keeps :
      (a : Member) (mutate : Unit {0} → Option V.Error) (w : V.World) (j : NamespacedName)
      → lookup j (V.members.create_or_update a mutate w).1 ≡ lookup j w
  pub members_update_keeps :
      (a : Member) (w : V.World) (j : NamespacedName)
      → lookup j (V.members.update a w).1 ≡ lookup j w

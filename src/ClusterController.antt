-- ===== src/ClusterController.antt =====
-- controllers/cluster_controller.go: `Reconcile` and the objects that it creates for a cluster. A
-- handler holds the cluster by pointer, so the cluster is the object of its frame. The loops over
-- the members are in ClusterController/Members.antt, Update.antt and Repair.antt, and the removal of
-- secrets in Cleanup.antt.
mod Ensure
pub mod Panic
pub mod Members
pub mod Observe
pub mod Phase
pub mod Keeps
pub mod Steady
pub mod Version
pub mod Untouched
pub mod Writes
pub mod Update
pub mod Repair
pub mod Cleanup
unfoldable pub use Ensure.*
use etcdops.Base.{String, true, none, some, if◌then◌else◌}
use etcdops.Kube.{
  Answer, ok, err, Outcome, done, Frame, Action, NamespacedName, pure, call, get_self, put_self,
  with_defer, ◌>>=◌, ◌>>◌,
}
use etcdops.Types.Cluster.{Cluster, ClusterPhase, is_unset, is_minor_failure, should_update}
use etcdops.Env.{Env, Ret, proceed, failing, or_return}

-- `if cluster.Status.Phase == "" { cluster.Status.Phase = api.ClusterCreating }`
unfoldable pub start_phase : Cluster → Cluster
start_phase c =
    if is_unset c.status.phase
    then record c { status = record (c.status) { phase = ClusterPhase.creating } }
    else c

module _ (V : Env) where
  -- `r.Status().Update(ctx, &cluster)` of the deferred call; its error is only logged.
  unfoldable pub update_status : Action V.World Cluster (Unit {0})
  update_status = do
    c ← get_self
    a ← call (V.clusters.update_status c)
    elim a [ ok c' ↦ put_self c' | err e ↦ pure tt ]

  unfoldable pub set_version : Action V.World Cluster (Ret V)
  set_version = do
    c ← get_self
    put_self (record c { status = record (c.status) { version = c.spec.version } })
    pure (proceed V)

  unfoldable pub update_if_due : Action V.World Cluster (Ret V)
  update_if_due = do
    c ← get_self
    if should_update c then Update.update_members V else pure (proceed V)

  unfoldable pub repair_if_minor : Action V.World Cluster (Ret V)
  repair_if_minor = do
    c ← get_self
    if is_minor_failure c.status.phase then Repair.repair_members V else pure (proceed V)

module _ (V : Env) (cluster_issuer : String) where
  -- What stands below the `defer`
  unfoldable pub reconcile_body : Action V.World Cluster (Ret V)
  unfolding update_if_due repair_if_minor set_version
  reconcile_body = or_return V (ensure_backup_schedule V) (
      or_return V (ensure_service V) (
        or_return V (ensure_ca V cluster_issuer) (
          or_return V (Members.ensure_members V)
            (or_return V (repair_if_minor V) (or_return V (update_if_due V) (set_version V))))))

  unfoldable pub reconcile_found : Action V.World Cluster (Ret V)
  unfolding start_phase update_status
  reconcile_found = do
    c ← get_self
    elim (c.metadata.deletion_timestamp) [
      | some t ↦ Cleanup.cleanup_secrets V
      | none ↦ do put_self (start_phase c); with_defer (update_status V) reconcile_body
    ]

  unfoldable pub reconcile : NamespacedName → V.World → Outcome (Ret V) × V.World
  unfolding reconcile_found
  reconcile req w =
      let (a, w') = V.clusters.get req w in
      elim a [
        | err e ↦ (done (failing V (V.ignore_not_found e)), w')
        | ok c ↦ let (o, f) = reconcile_found (record { world = w'; self = c }) in (o, f.world)
      ]

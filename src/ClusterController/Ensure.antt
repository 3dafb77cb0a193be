-- ===== src/ClusterController/Ensure.antt =====
-- The objects that a cluster owns beside its members: `EnsureBackupSchedule`, `EnsureService` and
-- `EnsureCA`. An object that exists is left as it is.
use etcdops.Base.{String, some}
use etcdops.Kube.{Answer, ok, err, Action, pure, call, get_self, ◌>>=◌}
use etcdops.Types.Cluster.{
  Cluster, get_ca_certificate, get_ca_issuer, get_service, get_backup_schedule,
}
use etcdops.Env.{Env, OwnerKind, Ret, proceed, failing, or_return}
use etcdops.Controller.{skip_update, requeue_if_created}

module _ (V : Env) where
  abbrev proceed_if_ok : {A : Type 0} → Answer V.Error A → Ret V
  proceed_if_ok (err e) = failing V (some e)
  proceed_if_ok (ok _) = proceed V

  unfoldable pub ensure_backup_schedule : Action V.World Cluster (Ret V)
  ensure_backup_schedule = do
    c ← get_self
    let schedule = get_backup_schedule c
    elim (V.set_controller_reference OwnerKind.cluster c.metadata schedule.metadata) [
      | err e ↦ pure (failing V (some e))
      | ok m ↦ do
        a ←
            call
              (V.backup_schedules.create_or_update (record schedule { metadata = m }) skip_update)
        pure (proceed_if_ok a)
    ]

  unfoldable pub ensure_service : Action V.World Cluster (Ret V)
  ensure_service = do
    c ← get_self
    let service = get_service c
    elim (V.set_controller_reference OwnerKind.cluster c.metadata service.metadata) [
      | err e ↦ pure (failing V (some e))
      | ok m ↦ do
        a ← call (V.services.create_or_update (record service { metadata = m }) skip_update)
        pure (requeue_if_created V a)
    ]

  unfoldable pub ensure_ca_certificate : String → Action V.World Cluster (Ret V)
  ensure_ca_certificate cluster_issuer = do
    c ← get_self
    let ca = get_ca_certificate c cluster_issuer
    elim (V.set_controller_reference OwnerKind.cluster c.metadata ca.metadata) [
      | err e ↦ pure (failing V (some e))
      | ok m ↦ do
        a ← call (V.certificates.create_or_update (record ca { metadata = m }) skip_update)
        pure (requeue_if_created V a)
    ]

  unfoldable pub ensure_ca_issuer : Action V.World Cluster (Ret V)
  ensure_ca_issuer = do
    c ← get_self
    let ca = get_ca_issuer c
    elim (V.set_controller_reference OwnerKind.cluster c.metadata ca.metadata) [
      | err e ↦ pure (failing V (some e))
      | ok m ↦ do
        a ← call (V.issuers.create_or_update (record ca { metadata = m }) skip_update)
        pure (requeue_if_created V a)
    ]

  unfoldable pub ensure_ca : String → Action V.World Cluster (Ret V)
  unfolding ensure_ca_certificate ensure_ca_issuer
  ensure_ca cluster_issuer =
      or_return V (ensure_ca_certificate cluster_issuer)
        (or_return V ensure_ca_issuer (pure (proceed V)))

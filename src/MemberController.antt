-- ===== src/MemberController.antt =====
-- controllers/member_controller.go: `Reconcile` of members. A handler holds the member by pointer,
-- so the member is the object of its frame. Its steps are in MemberController/Ensure.antt,
-- Certificates.antt, Pods.antt and Repair.antt.
pub mod Advance
pub mod Ensure
pub mod Certificates
pub mod Pods
pub mod Quiet
pub mod Repair
use etcdops.Base.{some, none, if◌then◌else◌}
use etcdops.Kube.{
  Answer, ok, err, Outcome, done, Frame, Action, NamespacedName, pure, call, get_self, put_self,
  with_defer, ◌>>=◌, ◌>>◌,
}
use etcdops.Types.Member.{Member, MemberPhase, should_update}
use etcdops.Env.{Env, Ret, proceed, failing, or_return}
use etcdops.MemberController.Pods.{set_member_phase}
use etcdops.MemberController.Repair.{update_member_status}

module _ (V : Env) where
  -- `if member.Spec.Broken`
  unfoldable pub repair_if_broken : Action V.World Member (Ret V)
  repair_if_broken = do m ← get_self; if m.spec.broken then Repair.repair V else pure (proceed V)

  -- `if member.ShouldUpdate()`: the phase changes when the old pod is gone.
  unfoldable pub update_if_due : Action V.World Member (Ret V)
  update_if_due = do
    m ← get_self
    if should_update m
        then or_return V (Pods.delete_pod V)
            (do set_member_phase V MemberPhase.updating; pure (proceed V))
        else pure (proceed V)

  -- What stands below the `defer`
  unfoldable pub reconcile_body : Action V.World Member (Ret V)
  unfolding repair_if_broken update_if_due
  reconcile_body = or_return V repair_if_broken (
      or_return V (Certificates.ensure_certificates V) (
        or_return V (Certificates.check_certificate_expires V) (
          or_return V (Ensure.ensure_pvc V)
            (or_return V update_if_due (or_return V (Pods.ensure_pod V) (pure (proceed V)))))))

  unfoldable pub reconcile_found : Action V.World Member (Ret V)
  reconcile_found = do
    m ← get_self
    elim (m.metadata.deletion_timestamp) [
      | some t ↦ pure (proceed V)
      | none ↦ with_defer (update_member_status V) reconcile_body
    ]

  unfoldable pub reconcile : NamespacedName → V.World → Outcome (Ret V) × V.World
  unfolding reconcile_found
  reconcile req w =
      let (a, w') = V.members.get req w in
      elim a [
        | err e ↦ (done (failing V (V.ignore_not_found e)), w')
        | ok m ↦ let (o, f) = reconcile_found (record { world = w'; self = m }) in (o, f.world)
      ]

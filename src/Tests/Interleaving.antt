-- ===== src/Tests/Interleaving.antt =====
-- Both controllers at a roll-out: the first member is asked and restarts.
use etcdops.Base.{◌∷◌, [], ◌≡◌, refl, sym, ap, arith}
use etcdops.Kube.{NamespacedName}
use etcdops.ClusterController.{reconcile as cluster_reconcile}
use etcdops.ClusterController.Update.Orderly.{OneMoves}
use etcdops.MemberController.{reconcile as member_reconcile}
use etcdops.MemberController.Advance.Steps.{FindsWhole}
use etcdops.Rollout.{starts, cluster_passes, member_passes, Interleaves-OneMoves}
use etcdops.Tests.Memory.{Store, memory, memory-IsLawful}
use etcdops.Tests.Memory.Stored.{memory-MemberStore}
use etcdops.Tests.Memory.Calls.{memory-MemberCalls, memory-ClusterCalls}
use etcdops.Tests.Clusters.{three, evaluation as cluster_evaluation}
use etcdops.Tests.Rollout.{evaluation, member, old, start, start-IsOrderly}

abbrev first_member : NamespacedName
first_member = record { name = "etcd-0"; namespace = "prod" }

abbrev key : NamespacedName
key = record { name = "etcd"; namespace = "prod" }

abbrev asked : Store
asked = (cluster_reconcile memory "issuer" key start).1

first_member-FindsWhole : FindsWhole memory memory-MemberStore memory-MemberCalls first_member asked
unfolding evaluation cluster_evaluation
first_member-FindsWhole m h =
    let same : member "3.5.1" "3.5.0" 0 ≡ m = ground arith in ap (λ x. x.spec.broken) (sym same)

abbrev after_restart : Store
after_restart = (member_reconcile memory first_member asked).1

Interleaves-OneMoves_example : OneMoves memory memory-MemberStore three after_restart
Interleaves-OneMoves_example =
    Interleaves-OneMoves memory memory-MemberStore memory-MemberCalls memory-ClusterCalls
      memory-IsLawful "issuer" three refl start-IsOrderly
      (member_passes first_member (cluster_passes key three.status starts refl)
        first_member-FindsWhole)

-- The first member is asked, and no other.
asked_first_alone : asked.members ≡ member "3.5.1" "3.5.0" 0 ∷ old 1 ∷ old 2 ∷ []
unfolding evaluation cluster_evaluation
asked_first_alone = refl

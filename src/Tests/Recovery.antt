-- ===== src/Tests/Recovery.antt =====
-- Both controllers at a repair: the second member has failed, is marked and is created anew.
use etcdops.Base.{ℕ, zero, suc, true, false, ◌<◌, some, [], ◌∷◌, ◌≡◌, refl, ◌∙◌, ap, arith}
use etcdops.Kube.{NamespacedName}
use etcdops.Types.Member.{Member, MemberPhase}
use etcdops.ClusterController.Repair.{mark_broken}
use etcdops.ClusterController.Update.Effects.{stored}
use etcdops.ClusterController.Repair.Alone.{in_repair, OneInRepair}
use etcdops.ClusterController.{reconcile as cluster_reconcile}
use etcdops.MemberController.{reconcile as member_reconcile}
use etcdops.Recovery.{starts, cluster_passes, member_passes, Interleaves-OneInRepair}
use etcdops.Tests.Memory.{Store, memory, memory-IsLawful}
use etcdops.Tests.Memory.Stored.{memory-MemberStore}
use etcdops.Tests.Memory.Calls.{memory-MemberCalls, memory-ClusterCalls}
use etcdops.Tests.Clusters.{three, evaluation as cluster_evaluation}
use etcdops.Tests.Rollout.{evaluation, old, world, stored_at, at}

abbrev lost : ℕ → Member
lost i = record (old i) { status = record ((old i).status) { phase = MemberPhase.failed } }

abbrev start : Store
start = world (old 0) (lost 1) (old 2)

abbrev in_order : ℕ → Member
in_order zero = old 0
in_order (suc zero) = lost 1
in_order (suc (suc k)) = old (suc (suc k))

start-stored : (k : ℕ) → k < 3 → stored memory memory-MemberStore three start k ≡ some (in_order k)
unfolding evaluation at
start-stored zero _ = stored_at 0 start
start-stored (suc zero) _ = stored_at 1 start
start-stored (suc (suc zero)) _ = stored_at 2 start
start-stored (suc (suc (suc k))) small = absurd (omega (arith, small))

in_order_whole : (k : ℕ) → in_repair (in_order k) ≡ false
unfolding evaluation
in_order_whole zero = refl
in_order_whole (suc zero) = refl
in_order_whole (suc (suc k)) = refl

start-OneInRepair : OneInRepair memory memory-MemberStore three start
start-OneInRepair = (
  λ k small. (in_order k, start-stored k small),
  λ k l m n small_k small_l there_k there_l hurt_k hurt_l.
      let same : in_order k ≡ m = ground (arith, start-stored k small_k) in
      let hurt : in_repair (in_order k) ≡ true = ap in_repair same ∙ hurt_k in
      absurd (ground (arith, in_order_whole k)),
)

abbrev second_member : NamespacedName
second_member = record { name = "etcd-1"; namespace = "prod" }

abbrev key : NamespacedName
key = record { name = "etcd"; namespace = "prod" }

abbrev marked : Store
marked = (cluster_reconcile memory "issuer" key start).1

abbrev healed : Store
healed = (member_reconcile memory second_member marked).1

Interleaves-OneInRepair_example : OneInRepair memory memory-MemberStore three healed
Interleaves-OneInRepair_example =
    Interleaves-OneInRepair memory memory-MemberStore memory-MemberCalls memory-ClusterCalls
      memory-IsLawful "issuer" three refl start-OneInRepair
      (member_passes second_member (cluster_passes key three.status starts refl))

-- The second member is marked.
marked_second : marked.members ≡ old 0 ∷ mark_broken (lost 1) ∷ old 2 ∷ []
unfolding evaluation cluster_evaluation
marked_second = refl

-- ===== src/Tests/Members.antt =====
-- The member controller, and the addresses of a cluster of three members.
use etcdops.Base.{ℕ, true, [], ◌∷◌, some, ◌≡◌, refl, inl, ◌⊎◌, arith, Memᴰ}
use etcdops.Base.Int.{pos, ltb_ℤ}
use etcdops.Base.Text.{decimal}
use etcdops.Kube.{done, Frame, Pod, Certificate}
use etcdops.Types.Cluster.{get_member, get_member_name}
use etcdops.Types.Cluster.{get_endpoints as cluster_endpoints}
use etcdops.Types.Cluster.Endpoints.{peer_entry, get_endpoints_agree}
use etcdops.Types.Cluster.Names.{get_pod-injective}
use etcdops.Types.Member.{Member, MemberPhase, get_endpoints, get_cluster, peer_entries}
use etcdops.Types.Member.Mounts.{AllMounted, get_pod-AllMounted}
use etcdops.Types.Member.Objects.{get_certificate, get_certificate_name}
use etcdops.Types.Member.Pod.{get_pod, get_containers, get_init_containers}
use etcdops.Env.{proceed}
use etcdops.Controller.{skip_update}
use etcdops.MemberController.{reconcile_body}
use etcdops.MemberController.Advance.{Moves}
use etcdops.MemberController.Advance.Pass.{reconcile_body-Moves}
use etcdops.MemberController.Pods.{ensure_pod, is_ready, all_ready, observe_pod, after_creation}
use etcdops.MemberController.Pods.Phase.{Observes, ensure_pod-Observes}
use etcdops.MemberController.Certificates.{check_certificate_expires}
use etcdops.MemberController.Certificates.Expiry.{check_certificate_expires_peer}
use etcdops.MemberController.Repair.{repair}
use etcdops.MemberController.Repair.Order.{Stays, Reenters, repair-Reenters}
use etcdops.Tests.Memory.{Store, memory, memory-IsLawful, empty_store}
use etcdops.Tests.Clusters.{three, running}

-- The pod of the first member, created at the instant 100
abbrev old_pod : Pod
old_pod = record (get_pod (running 0)) {
  metadata = record ((get_pod (running 0)).metadata) { creation_timestamp = pos 100 };
  container_statuses = true ∷ [];
}

-- A certificate of that member that was issued at an instant
abbrev issued : ℕ → Certificate → Certificate
issued t c = record c { not_before = some (pos t) }

-- The client certificate is newer than the pod, the peer certificate is not.
abbrev renewed : Store
renewed = record empty_store {
  pods = old_pod ∷ [];
  certificates =
      issued 200 (get_certificate (running 0) "client")
      ∷ issued 50 (get_certificate (running 0) "peer")
      ∷ [];
}

abbrev first : Store → Frame memory.World Member
first s = record { world = s; self = running 0 }

what_runs : Unit {0}
unfolding get_member get_member_name decimal get_pod get_certificate get_certificate_name
    skip_update ensure_pod is_ready all_ready observe_pod after_creation get_containers
    get_init_containers
what_runs = tt

check_certificate_expires_peer_example : check_certificate_expires memory (first renewed) ≡ (
  done (proceed memory),
  record {
    world = renewed;
    self = record (running 0) {
      status = record ((running 0).status) { certificate_expires = ltb_ℤ (pos 100) (pos 50) };
    };
  },
)
unfolding what_runs
check_certificate_expires_peer_example =
    check_certificate_expires_peer memory (first renewed) {pod = old_pod}
      {client = issued 200 (get_certificate (running 0) "client")}
      {peer = issued 50 (get_certificate (running 0) "peer")} {t = pos 200} {u = pos 50}
      {w1 = renewed} {w2 = renewed} {w3 = renewed} refl refl refl refl refl

-- The pod is gone, so that the member fails at the instant of the store's clock.
lost_pod : (ensure_pod memory (first empty_store)).1.self.status.phase ≡ MemberPhase.failed
unfolding what_runs
lost_pod = refl

ensure_pod-Observes_example :
    Observes memory
      (first renewed)
      (ensure_pod memory (first renewed)).0
      (ensure_pod memory (first renewed)).1
ensure_pod-Observes_example = ensure_pod-Observes memory (first renewed)

-- A broken member whose pod is gone already, with an old entry in etcd's member list
abbrev broken : Frame memory.World Member
broken = record {
  world = record empty_store {
    members = record (running 0) { spec = record ((running 0).spec) { broken = true } } ∷ [];
    etcd_members = record { id = 7; name = "etcd-0" } ∷ record { id = 8; name = "etcd-1" } ∷ [];
  };
  self = record (running 0) { spec = record ((running 0).spec) { broken = true } };
}

repair-Reenters_example :
    Stays memory broken (repair memory broken) ⊎ Reenters memory broken (repair memory broken)
repair-Reenters_example = repair-Reenters memory memory-IsLawful broken

get_pod-injective_example : ◌≡◌ {A = ℕ} 2 2
get_pod-injective_example = get_pod-injective three 2 2 (inl refl)

get_endpoints_agree_example :
    (get_endpoints (get_member three 1) ≡ cluster_endpoints three)
    × (get_cluster (get_member three 1) ≡ get_cluster (get_member three 2))
    × ((get_member three 1).spec.cluster_token ≡ (get_member three 2).spec.cluster_token)
    × Memᴰ
        (peer_entry (get_member three 1))
        (peer_entries (get_member three 1) (get_member three 1).spec.members)
get_endpoints_agree_example = get_endpoints_agree three 1 2 (omega arith)

-- The member is asked for a version that it does not run, and its old pod is still there.
reconcile_body-Moves_example : Moves (running 0) (reconcile_body memory (first renewed)).1.self
unfolding get_member
reconcile_body-Moves_example = reconcile_body-Moves memory memory-IsLawful (first renewed) refl

-- A member that restores a backup
abbrev restored : Member
restored = record (running 0) {
  spec = record ((running 0).spec) { backup = "https://backups/etcd-1" };
  status = record ((running 0).status) { phase = MemberPhase.creating };
}

get_pod-AllMounted_example :
    AllMounted restored (get_pod restored).init_containers
    × AllMounted restored (get_pod restored).containers
get_pod-AllMounted_example = get_pod-AllMounted restored

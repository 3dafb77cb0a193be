-- ===== src/Tests/Memory/Faultless.antt =====
-- The members in memory are read and written without a fault.
use etcdops.Base.{ℕ, some, ◌≡◌, sym, ◌∙◌, arith}
use etcdops.Kube.{ok}
use etcdops.Types.Cluster.{get_member}
use etcdops.Types.Member.{Member}
use etcdops.Env.Store.{key_of}
use etcdops.ClusterController.Members.{ensure_member}
use etcdops.Controller.{skip_update}
use etcdops.ClusterController.Update.Rolling.{Fr, Reads}
use etcdops.ClusterController.Update.Effects.{stored, member_key}
use etcdops.ClusterController.Update.Calm.{Willing}
use etcdops.Tests.Memory.{Store, memory}
use etcdops.Tests.Memory.Stored.{memory-MemberStore, memory-lookup, found, merged, update_known}

memory-Reads :
    (i : ℕ) (f : Fr memory) {m : Member}
    → stored memory memory-MemberStore f.self f.world i ≡ some m
    → (x : Member) × (g : Fr memory) × Reads memory i f x g
unfolding ensure_member get_member skip_update
memory-Reads i f {m} h =
    let known : found (member_key f.self i) f.world.members ≡ some m =
      sym (memory-lookup (member_key f.self i) f.world) ∙ h in
    (m, f, ground arith)

memory-writes :
    (a : Member) (w : Store) {m : Member}
    → memory-MemberStore.lookup (key_of a.metadata) w ≡ some m
    → (x : Member) × ((memory.members.update a w).0 ≡ ok x)
memory-writes a w {m} h =
    let known : found (key_of a.metadata) w.members ≡ some m =
      sym (memory-lookup (key_of a.metadata) w) ∙ h in
    let (answers, _) = update_known a w known in (merged a m, answers)

pub memory-Willing : Willing memory memory-MemberStore
memory-Willing = record { reads = memory-Reads; writes = memory-writes }

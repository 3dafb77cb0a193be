-- ===== src/Tests/Memory/Calls.antt =====
-- The other calls of a pass over a member, in memory.
use etcdops.Base.{◌≡◌, ◌≢◌, none, some, refl, sym, ◌∙◌, ap, arith, inl, inr, Option-cases}
use etcdops.Kube.{ok, err, NamespacedName}
use etcdops.Types.Member.{Member}
use etcdops.Env.Store.{MemberCalls, ClusterCalls, key_of}
use etcdops.Tests.Memory.{Store, Fault, memory, replace}
use etcdops.Tests.Memory.Stored.{
  memory-MemberStore, memory-lookup, found, found_keyed, found-replace, found-replace_apart,
}

-- Worlds with the same members answer alike.
same_members :
    (w v : Store) (j : NamespacedName)
    → v.members ≡ w.members
    → memory-MemberStore.lookup j v ≡ memory-MemberStore.lookup j w
same_members w v j e = memory-lookup j v ∙ ap (found j) e ∙ sym (memory-lookup j w)

with_status : Member → Member → Member
with_status a m = record m { status = a.status }

status_known :
    (a : Member) (w : Store) {m : Member}
    → found (key_of a.metadata) w.members ≡ some m
    → ((memory.members.update_status a w).0 ≡ ok (with_status a m))
      × ((memory.members.update_status a w).1.members
          ≡ replace (λ b. b.metadata) (with_status a m) w.members)
unfolding with_status
status_known a w known = (ground arith, ground arith)

status_unknown :
    (a : Member) (w : Store)
    → found (key_of a.metadata) w.members ≡ none
    → (memory.members.update_status a w).1.members ≡ w.members
status_unknown a w unknown = ground arith

status_writes_memory :
    (a : Member) (w : Store) {m x : Member}
    → memory-MemberStore.lookup (key_of a.metadata) w ≡ some m
    → (memory.members.update_status a w).0 ≡ ok x
    → (x.spec ≡ m.spec)
      × (x.status ≡ a.status)
      × (memory-MemberStore.lookup (key_of a.metadata) (memory.members.update_status a w).1
          ≡ some x)
unfolding with_status
status_writes_memory a w {m} {x} h wrote =
    let known : found (key_of a.metadata) w.members ≡ some m =
      sym (memory-lookup (key_of a.metadata) w) ∙ h in
    let (answers, after) = status_known a w known in
    let same : with_status a m ≡ x = ground arith in
    let key : key_of m.metadata ≡ key_of a.metadata =
      found_keyed (key_of a.metadata) w.members known in
    let own : found (key_of m.metadata) w.members ≡ some m =
      ap (λ k. found k w.members) key ∙ known in
    (
      ap (λ b. b.spec) (sym same),
      ap (λ b. b.status) (sym same),
      memory-lookup (key_of a.metadata) (memory.members.update_status a w).1
          ∙ ap (found (key_of a.metadata)) after
          ∙ ap (λ k. found k (replace (λ b. b.metadata) (with_status a m) w.members)) (sym key)
          ∙ found-replace (with_status a m) w.members own
          ∙ ap some same,
    )

status_refused_memory :
    (a : Member) (w : Store) {e : Fault}
    → (memory.members.update_status a w).0 ≡ err e
    → (memory.members.update_status a w).1.members ≡ w.members
status_refused_memory a w {e} failed = elim (Option-cases (found (key_of a.metadata) w.members)) [
  | inr (m, known) ↦ let (answers, _) = status_known a w known in absurd (ground arith)
  | inl unknown ↦ status_unknown a w unknown
]

status_keeps_memory :
    (a : Member) (w : Store) (k : NamespacedName)
    → k ≢ key_of a.metadata
    → found k (memory.members.update_status a w).1.members ≡ found k w.members
unfolding with_status
status_keeps_memory a w k apart = elim (Option-cases (found (key_of a.metadata) w.members)) [
  | inr (m, known) ↦
      let (_, after) = status_known a w known in
      let key = found_keyed (key_of a.metadata) w.members known in
      ap (found k) after ∙ found-replace_apart k (with_status a m) w.members (λ e. apart (e ∙ key))
  | inl unknown ↦ ap (found k) (status_unknown a w unknown)
]

get_reads_memory :
    (k : NamespacedName) (w : Store) {m : Member}
    → (memory.members.get k w).0 ≡ ok m
    → found k w.members ≡ some m
get_reads_memory k w {m} h = ground arith

pub memory-MemberCalls : MemberCalls memory memory-MemberStore
memory-MemberCalls = record {
  get_reads = λ {k} {w} {m} h. memory-lookup k w ∙ get_reads_memory k w h;
  get_keeps = λ k w j. same_members w (memory.members.get k w).1 j (ground arith);
  status_writes = λ {a} {m} {x} {w} known wrote. status_writes_memory a w known wrote;
  status_refused = λ {a} {e} {w} failed k.
      same_members w (memory.members.update_status a w).1 k (status_refused_memory a w failed);
  status_keeps_others = λ {a} {w} {k} apart.
      memory-lookup k (memory.members.update_status a w).1
      ∙ status_keeps_memory a w k apart
      ∙ sym (memory-lookup k w);
  now_keeps = λ w j. refl;
  certificates_get_keeps = λ k w j. same_members w (memory.certificates.get k w).1 j (ground arith);
  certificates_create_keeps = λ a mutate w j.
      same_members w (memory.certificates.create_or_update a mutate w).1 j (ground arith);
  pvcs_create_keeps = λ a mutate w j. refl;
  pods_get_keeps = λ k w j. same_members w (memory.pods.get k w).1 j (ground arith);
  pods_create_keeps =
      λ a mutate w j. same_members w (memory.pods.create_or_update a mutate w).1 j (ground arith);
  pods_delete_keeps = λ a w j. same_members w (memory.pods.delete a w).1 j (ground arith);
  pvcs_delete_keeps = λ a w j. refl;
  etcd_connect_keeps = λ endpoints w j. refl;
  etcd_list_keeps = λ etcd w j. refl;
  etcd_remove_keeps =
      λ etcd id w j. same_members w (memory.etcd.member_remove etcd id w).1 j (ground arith);
  etcd_add_keeps =
      λ etcd urls w j. same_members w (memory.etcd.member_add etcd urls w).1 j (ground arith);
}

pub memory-ClusterCalls : ClusterCalls memory memory-MemberStore
memory-ClusterCalls = record {
  clusters_get_keeps = λ k w j. same_members w (memory.clusters.get k w).1 j (ground arith);
  clusters_status_keeps =
      λ a w j. same_members w (memory.clusters.update_status a w).1 j (ground arith);
  schedules_create_keeps = λ a mutate w j. refl;
  services_create_keeps = λ a mutate w j. refl;
  issuers_create_keeps = λ a mutate w j. refl;
}

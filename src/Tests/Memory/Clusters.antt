-- ===== src/Tests/Memory/Clusters.antt =====
-- The clusters in memory are a store as the API server documents it.
use etcdops.Base.{
  List, [], ◌∷◌, Option, some, ◌≡◌, ◌≢◌, refl, sym, ◌∙◌, ap, ◌⊎◌, inl, inr, arith, Bool-cases,
  Option-cases,
}
use etcdops.Kube.{ok, NamespacedName}
use etcdops.Types.Cluster.{Cluster}
use etcdops.Env.Clusters.{ClusterStore}
use etcdops.Env.Store.{key_of}
use etcdops.Tests.Memory.{Store, memory, find, replace, same_key}
use etcdops.Tests.Memory.Stored.{same_key-true, same_key_self, same_key_apart}

abbrev found_cluster : NamespacedName → List Cluster → Option Cluster
found_cluster k l = find (λ c. c.metadata) k.name k.namespace l

abbrev replaced : Cluster → List Cluster → List Cluster
replaced a l = replace (λ c. c.metadata) a l

found_cluster_keyed :
    (k : NamespacedName) (l : List Cluster) {c : Cluster}
    → found_cluster k l ≡ some c
    → key_of c.metadata ≡ k
found_cluster_keyed k [] h = absurd (ground arith)
found_cluster_keyed k (x ∷ xs) {c} h = elim (Bool-cases (same_key k.name k.namespace x.metadata)) [
  | inl t ↦
      let same : x ≡ c = ground arith in
      ap (λ y. key_of y.metadata) (sym same) ∙ same_key-true k x.metadata t
  | inr f ↦ found_cluster_keyed k xs {c = c} (ground arith)
]

found_cluster-replaced :
    (a : Cluster) (l : List Cluster) {c : Cluster}
    → found_cluster (key_of a.metadata) l ≡ some c
    → found_cluster (key_of a.metadata) (replaced a l) ≡ some a
found_cluster-replaced a [] h = absurd (ground arith)
found_cluster-replaced a (x ∷ xs) {c} h =
    elim (Bool-cases (same_key a.metadata.name a.metadata.namespace x.metadata)) [
      | inl t ↦ ground (arith, same_key_self a.metadata)
      | inr f ↦ ground (arith, found_cluster-replaced a xs {c = c} (ground arith))
    ]

found_cluster-replaced_apart :
    (k : NamespacedName) (a : Cluster) (l : List Cluster)
    → k ≢ key_of a.metadata
    → found_cluster k (replaced a l) ≡ found_cluster k l
found_cluster-replaced_apart k a [] h = refl
found_cluster-replaced_apart k a (x ∷ xs) h =
    elim (Bool-cases (same_key a.metadata.name a.metadata.namespace x.metadata)) [
      | inl t ↦
          let same : key_of x.metadata ≡ key_of a.metadata =
            same_key-true (key_of a.metadata) x.metadata t in
          ground
            (arith, same_key_apart k a.metadata h, same_key_apart k x.metadata (λ e. h (e ∙ same)))
      | inr f ↦ ground (arith, found_cluster-replaced_apart k a xs h)
    ]

with_status : Cluster → Cluster → Cluster
with_status a c = record c { status = a.status }

status_writes_memory :
    (a : Cluster) (w : Store) (k : NamespacedName)
    → (found_cluster k (memory.clusters.update_status a w).1.clusters ≡ found_cluster k w.clusters)
      ⊎ ((c : Cluster) × (key_of a.metadata ≡ k)
          × (found_cluster k w.clusters ≡ some c)
          × (found_cluster k (memory.clusters.update_status a w).1.clusters
              ≡ some (record c { status = a.status })))
unfolding with_status
status_writes_memory a w k = elim (Option-cases (found_cluster (key_of a.metadata) w.clusters)) [
  | inl unknown ↦ inl (ap (found_cluster k) (ground arith))
  | inr (c, known) ↦
      let after : (memory.clusters.update_status a w).1.clusters
          ≡ replaced (with_status a c) w.clusters =
        ground arith in
      let key = found_cluster_keyed (key_of a.metadata) w.clusters known in
      let own : found_cluster (key_of c.metadata) w.clusters ≡ some c =
        ap (λ j. found_cluster j w.clusters) key ∙ known in
      elim (Bool-cases (same_key k.name k.namespace a.metadata)) [
        | inl t ↦
            let same = same_key-true k a.metadata t in
            inr (
              c,
              same,
              ap (λ j. found_cluster j w.clusters) (sym same) ∙ known,
              ap (found_cluster k) after
                  ∙ ap (λ j. found_cluster j (replaced (with_status a c) w.clusters))
                      (sym (key ∙ same))
                  ∙ found_cluster-replaced (with_status a c) w.clusters own,
            )
        | inr f ↦ inl (
            ap (found_cluster k) after
            ∙ found_cluster-replaced_apart k (with_status a c) w.clusters
                (λ e. ground (arith, same_key_self a.metadata, e ∙ key)))
      ]
]

get_keyed_memory :
    (k : NamespacedName) (w : Store) {c : Cluster}
    → (memory.clusters.get k w).0 ≡ ok c
    → key_of c.metadata ≡ k
get_keyed_memory k w {c} h = found_cluster_keyed k w.clusters {c = c} (ground arith)

-- Worlds with the same clusters answer alike.
same_clusters :
    (w v : Store) (j : NamespacedName)
    → v.clusters ≡ w.clusters
    → found_cluster j v.clusters ≡ found_cluster j w.clusters
same_clusters w v j e = ap (found_cluster j) e

pub memory-ClusterStore : ClusterStore memory
memory-ClusterStore = record {
  lookup = λ k w. found_cluster k w.clusters;
  get_keyed = λ {k} {w} {c} h. get_keyed_memory k w h;
  get_keeps = λ k w j. same_clusters w (memory.clusters.get k w).1 j (ground arith);
  status_writes = status_writes_memory;
  now_keeps = λ w j. refl;
  schedules_create_keeps = λ a mutate w j. refl;
  services_create_keeps = λ a mutate w j. refl;
  certificates_create_keeps = λ a mutate w j.
      same_clusters w (memory.certificates.create_or_update a mutate w).1 j (ground arith);
  issuers_create_keeps = λ a mutate w j. refl;
  members_create_keeps = λ a mutate w j.
      same_clusters w (memory.members.create_or_update a mutate w).1 j (ground arith);
  members_update_keeps = λ a w j. same_clusters w (memory.members.update a w).1 j (ground arith);
}

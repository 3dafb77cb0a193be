-- ===== src/Types/Cluster/Endpoints.antt =====
-- The addresses that a cluster and its members derive on their own (api/v1alpha1/cluster_types.go
-- and member_types.go): the operator connects to one list, and etcd's members to each other.
use etcdops.Base.{ℕ, zero, suc, ◌+◌, ◌<◌, String, ◌<>◌, List, [], ◌∷◌, ◌≡◌, refl, ap, arith, Memᴰ}
use etcdops.Base.Int.{pos_part}
use etcdops.Base.Path.{join}
use etcdops.Types.Cluster.{Cluster, get_member, member_names, endpoints_from}
use etcdops.Types.Cluster.{get_endpoints as cluster_endpoints}
use etcdops.Types.Member.{Member, client_urls, peer_entries, get_cluster, get_advertise_peer_url}
use etcdops.Types.Member.{get_endpoints as member_endpoints}

client_urls-member_names :
    (c : Cluster) (num n i : ℕ)
    → client_urls (get_member c num) (member_names c n i) ≡ endpoints_from c n i
unfolding client_urls member_names endpoints_from get_member
client_urls-member_names c num zero i = refl
client_urls-member_names c num (suc n) i = cc (client_urls-member_names c num n (suc i))

-- The entry of a member in the list of peers
abbrev pub peer_entry : Member → String
peer_entry m = m.metadata.name <> ("=" <> get_advertise_peer_url m)

peer_entries-mem :
    (c : Cluster) (num i n k : ℕ)
    → i + k ≡ num
    → k < n
    → Memᴰ (peer_entry (get_member c num)) (peer_entries (get_member c num) (member_names c n i))
unfolding peer_entries member_names get_member get_advertise_peer_url
peer_entries-mem c num i zero k e h = absurd (omega arith)
peer_entries-mem c num i (suc n) zero e h =
    let same : num ≡ i = omega arith in Memᴰ.head (ap (λ j. peer_entry (get_member c j)) same)
peer_entries-mem c num i (suc n) (suc k) e h =
    Memᴰ.tail (peer_entries-mem c num (suc i) n k (omega arith) (omega arith))

peer_entries_same :
    (c : Cluster) (num other : ℕ) (names : List String)
    → peer_entries (get_member c num) names ≡ peer_entries (get_member c other) names
unfolding peer_entries get_member
peer_entries_same c num other [] = refl
peer_entries_same c num other (x ∷ names) = cc (peer_entries_same c num other names)

-- The operator and each member of a cluster derive the same list of client addresses, all members
-- start with the same list of peers and the same token, and each member that the cluster has finds
-- itself in that list, under its name and with the address at which it is advertised.
pub get_endpoints_agree :
    (c : Cluster) (num other : ℕ)
    → num < pos_part c.spec.size
    → (member_endpoints (get_member c num) ≡ cluster_endpoints c)
      × (get_cluster (get_member c num) ≡ get_cluster (get_member c other))
      × ((get_member c num).spec.cluster_token ≡ (get_member c other).spec.cluster_token)
      × Memᴰ
          (peer_entry (get_member c num))
          (peer_entries (get_member c num) (get_member c num).spec.members)
unfolding get_member get_cluster cluster_endpoints member_endpoints
get_endpoints_agree c num other h = (
  client_urls-member_names c num (pos_part c.spec.size) 0,
  ap (join ",") (peer_entries_same c num other (member_names c (pos_part c.spec.size) 0)),
  refl,
  peer_entries-mem c num 0 (pos_part c.spec.size) num (omega arith) h,
)

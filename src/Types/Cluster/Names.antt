-- ===== src/Types/Cluster/Names.antt =====
-- The names that a cluster gives to its members (api/v1alpha1/cluster_types.go, `GetMemberName`).
use text.Mathlib.TextLemmas.{append_cancel_left}
use etcdops.Base.{ℕ, ◌≡◌, ◌<>◌, ◌⊎◌, inl, inr}
use etcdops.Base.Text.{decimal}
use etcdops.Base.Decimal.{decimal-injective}
use etcdops.Types.Cluster.{Cluster, get_member_name, get_member}
use etcdops.Types.Member.Objects.{get_pvc}
use etcdops.Types.Member.Pod.{get_pod}

pub get_member_name-injective :
    (c : Cluster) (i j : ℕ) → get_member_name c i ≡ get_member_name c j → i ≡ j
unfolding get_member_name
get_member_name-injective c i j e = decimal-injective i j (
    append_cancel_left "-" (decimal i) (decimal j)
      (append_cancel_left c.metadata.name ("-" <> decimal i) ("-" <> decimal j) e))

-- If the pods of two members of a cluster have the same name, or their volume claims have, then they
-- are the same member.
pub get_pod-injective :
    (c : Cluster) (i j : ℕ)
    → ((get_pod (get_member c i)).metadata.name ≡ (get_pod (get_member c j)).metadata.name)
      ⊎ ((get_pvc (get_member c i)).metadata.name ≡ (get_pvc (get_member c j)).metadata.name)
    → i ≡ j
unfolding get_member get_pod get_pvc
get_pod-injective c i j (inl e) = get_member_name-injective c i j e
get_pod-injective c i j (inr e) = get_member_name-injective c i j e

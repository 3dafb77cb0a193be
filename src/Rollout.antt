-- ===== src/Rollout.antt =====
-- A roll-out by both controllers: passes of `Reconcile` over a cluster
-- (controllers/cluster_controller.go) and over its members (controllers/member_controller.go), in any
-- order.
use etcdops.Base.{String, none, some, ◌≡◌, refl, ◌∙◌, ap, subst, ◌⊎◌, inl, inr, arith}
use etcdops.Kube.{ok, NamespacedName}
use etcdops.Types.Cluster.{Cluster, ClusterStatus}
use etcdops.Types.Member.{Member}
use etcdops.Env.{Env, IsLawful}
use etcdops.Env.Store.{MemberStore, MemberCalls, ClusterCalls}
use etcdops.ClusterController.{reconcile as cluster_reconcile}
use etcdops.ClusterController.Steady.{IsSteady, by_status, reconcile-Holds}
use etcdops.ClusterController.Repair.{repair_members}
use etcdops.ClusterController.Repair.Effects.{Repairs, looks, marks, repair_members-Repairs}
use etcdops.ClusterController.Update.{update_members}
use etcdops.ClusterController.Update.Effects.{stored, member_key, SameVersions, SameVersions-lookup}
use etcdops.ClusterController.Update.Pass.{rests}
use etcdops.ClusterController.Update.Asking.{update_members-Passes}
use etcdops.ClusterController.Update.Orderly.{
  Moves, IsOrderly, OneMoves, IsOrderly-OneMoves, IsOrderly-status, Passes-IsOrderly,
  Moves-IsOrderly,
}
use etcdops.MemberController.{reconcile as member_reconcile}
use etcdops.MemberController.Advance.{Advances, stays, fails, restarts, runs}
use etcdops.MemberController.Advance.Steps.{FindsWhole, reconcile-Steps}

Advances-version :
    (m m' : Member)
    → Advances m m'
    → (m'.status.version ≡ m.status.version) ⊎ (m'.status.version ≡ m.spec.version)
Advances-version m m' (stays _ v _) = inl v
Advances-version m m' (fails _ _ _ v) = inl v
Advances-version m m' (restarts _ _ v _) = inl v
Advances-version m m' (runs _ v) = inr v

module _ (V : Env) (S : MemberStore V) (K : MemberCalls V S) where
  member_pass-Moves :
      IsLawful V
      → (c : Cluster) (req : NamespacedName) (w : V.World) → FindsWhole V S K req w
      → Moves V S c w (member_reconcile V req w).1
  member_pass-Moves L c req w whole k n small known =
      let (n', there, how) = reconcile-Steps V S K L req w whole (member_key c k) n known in
      elim how [
        | inl same ↦
            (n', there, ap (λ y. y.spec.version) same, inl (ap (λ y. y.status.version) same))
        | inr (spec, steps) ↦ (n', there, ap (λ s. s.version) spec, Advances-version n n' steps)
      ]

  -- A pass of `RepairMembers` changes no version.
  Repairs-SameVersions :
      (c : Cluster) (w w' : V.World) → Repairs V S K c w w' → SameVersions V S c w w'
  Repairs-SameVersions c w w' (looks same) k n known = SameVersions-lookup V S c w w' same k n known
  Repairs-SameVersions c w w' (marks j m small there calm wrote) k n known =
      let (n', there', how) = wrote k n known in
      (
        n',
        there',
        elim how [
          | inl same ↦ (ap (λ y. y.spec.version) same, ap (λ y. y.status.version) same)
          | inr (at_j, spec, status) ↦
              let here : stored V S c w j ≡ some n =
                subst (λ i. stored V S c w i ≡ some n) at_j known in
              let same : m ≡ n = ground arith in
              (ap (λ s. s.version) spec ∙ ap (λ y. y.spec.version) same, ap (λ s. s.version) status)
        ],
      )

module _ (V : Env) (S : MemberStore V) (K : MemberCalls V S) (C : ClusterCalls V S) where
  -- A whole pass over the cluster keeps the order of the roll-out.
  IsOrderly-IsSteady : IsLawful V → IsSteady V S K C (IsOrderly V S)
  IsOrderly-IsSteady L = record {
    same_spec = by_status V S K C (IsOrderly V S) (IsOrderly-status V S);
    reads = λ c w w' same orderly.
        Passes-IsOrderly V S c w w' (rests (SameVersions-lookup V S c w w' same)) orderly;
    all_stored = λ c w orderly. orderly.0;
    repairs = λ f orderly.
        let w = (repair_members V f).1.world in
        Passes-IsOrderly V S f.self f.world w
          (rests (
            Repairs-SameVersions V S K f.self f.world w (repair_members-Repairs V S K f orderly.0)))
          orderly;
    updates = λ f orderly.
        Passes-IsOrderly V S f.self f.world (update_members V f).1.world
          (update_members-Passes V S L f.self f refl orderly.0) orderly;
  }

  -- The worlds that passes of both controllers lead to. A pass over the cluster finds it with any
  -- status.
  pub data Interleaves (issuer : String) (c : Cluster) (start : V.World) : V.World → Type 0 where
    starts : Interleaves issuer c start start
    cluster_passes :
        {w : V.World} (req : NamespacedName) (status : ClusterStatus)
        → Interleaves issuer c start w
        → (V.clusters.get req w).0 ≡ ok (record c { status = status })
        → Interleaves issuer c start (cluster_reconcile V issuer req w).1
    member_passes :
        {w : V.World} (req : NamespacedName)
        → Interleaves issuer c start w
        → FindsWhole V S K req w
        → Interleaves issuer c start (member_reconcile V req w).1

  Interleaves-IsOrderly :
      IsLawful V
      → (issuer : String) (c : Cluster) {start w : V.World} → c.metadata.deletion_timestamp ≡ none
      → IsOrderly V S c start
      → Interleaves issuer c start w
      → IsOrderly V S c w
  Interleaves-IsOrderly L issuer c alive orderly starts = orderly
  Interleaves-IsOrderly L issuer c alive orderly (cluster_passes {w = w} req status before got) =
      reconcile-Holds V S K C (IsOrderly V S) (IsOrderly-IsSteady L) L issuer req c w status got
        alive (Interleaves-IsOrderly L issuer c alive orderly before)
  Interleaves-IsOrderly L issuer c alive orderly (member_passes {w = w} req before whole) =
      Moves-IsOrderly V S c w (member_reconcile V req w).1 (member_pass-Moves V S K L c req w whole)
        (Interleaves-IsOrderly L issuer c alive orderly before)

  -- If the API server behaves as documented (`IsLawful`, `MemberStore`, `MemberCalls`,
  -- `ClusterCalls`), then from a world in which all members of a cluster that is not being deleted are
  -- stored and the members in front of each one that is on its way to the cluster's version run it,
  -- passes of the cluster controller over the cluster and passes of the member controller over members
  -- that are not marked as broken, in any order and number, never lead to a world in which two members
  -- are on their way.
  pub Interleaves-OneMoves :
      IsLawful V
      → (issuer : String) (c : Cluster) {start w : V.World} → c.metadata.deletion_timestamp ≡ none
      → IsOrderly V S c start
      → Interleaves issuer c start w
      → OneMoves V S c w
  Interleaves-OneMoves L issuer c {w = w} alive orderly before =
      IsOrderly-OneMoves V S c w (Interleaves-IsOrderly L issuer c alive orderly before)

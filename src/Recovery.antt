-- ===== src/Recovery.antt =====
-- Repairs by both controllers: passes of `Reconcile` over a cluster
-- (controllers/cluster_controller.go) and over its members (controllers/member_controller.go), in any
-- order.
use etcdops.Base.{String, none, true, ◌≡◌, refl, sym, ◌∙◌, ap, inl, inr, arith}
use etcdops.Kube.{ok, NamespacedName}
use etcdops.Types.Cluster.{Cluster, ClusterStatus, get_member_name}
use etcdops.Types.Member.{Member, is_creating}
use etcdops.Env.{Env, IsLawful}
use etcdops.Env.Store.{MemberStore, MemberCalls, ClusterCalls}
use etcdops.ClusterController.Update.{update_members}
use etcdops.ClusterController.Update.Effects.{member_key}
use etcdops.ClusterController.Repair.{repair_members}
use etcdops.ClusterController.Repair.Effects.{repair_members-Repairs}
use etcdops.ClusterController.Repair.Alone.{
  in_repair, NoneEnters, NoneEnters-lookup, OneInRepair, NoneEnters-OneInRepair,
  Repairs-OneInRepair, update_members-NoneEnters,
}
use etcdops.MemberController.{reconcile as member_reconcile}
use etcdops.ClusterController.{reconcile as cluster_reconcile}
use etcdops.ClusterController.Steady.{IsSteady, by_status, reconcile-Holds}
use etcdops.MemberController.Advance.{Advances, stays, fails, restarts, runs}
use etcdops.MemberController.Advance.Steps.{
  Reconciles, idles, advances, heals, reconcile-Reconciles, same_key-cases,
}

-- A member that advances does not get into repair.
Advances-in_repair :
    (m m' : Member) → m'.spec ≡ m.spec → Advances m m' → in_repair m' ≡ true → in_repair m ≡ true
unfolding is_creating
Advances-in_repair m m' e (stays p _ _) hurt = let mark = ap (λ s. s.broken) e in ground arith
Advances-in_repair m m' e (fails _ _ p _) hurt = let mark = ap (λ s. s.broken) e in ground arith
Advances-in_repair m m' e (restarts _ p _ _) hurt = let mark = ap (λ s. s.broken) e in ground arith
Advances-in_repair m m' e (runs p _) hurt = let mark = ap (λ s. s.broken) e in ground arith

module _ (V : Env) (S : MemberStore V) (K : MemberCalls V S) where
  -- A pass over a member puts no member into repair.
  Reconciles-NoneEnters :
      (c : Cluster) (req : NamespacedName) (w w' : V.World)
      → Reconciles V S K req w w'
      → NoneEnters V S c w w'
  Reconciles-NoneEnters c req w w' (idles same) k n known =
      NoneEnters-lookup V S c w w' same k n known
  Reconciles-NoneEnters c req w w' (advances steps) k n known =
      let (n', there, how) = steps (member_key c k) n known in
      (
        n',
        there,
        elim how [
          | inl same ↦ λ hurt. ap in_repair (sym same) ∙ hurt
          | inr (spec, goes) ↦ Advances-in_repair n n' spec goes
        ],
      )
  Reconciles-NoneEnters c req w w' (heals m own broken others (m', own')) k n known =
      elim (same_key-cases (member_key c k) req) [
        | inr apart ↦ (n, others (member_key c k) apart ∙ known, λ hurt. hurt)
        | inl e ↦
            let same : m ≡ n =
              let both = sym own ∙ ap (λ j. S.lookup j w) (sym e) ∙ known in ground arith in
            let mark : n.spec.broken ≡ true = ap (λ y. y.spec.broken) (sym same) ∙ broken in
            (m', ap (λ j. S.lookup j w') e ∙ own', λ hurt. ground arith)
      ]

  OneInRepair-status :
      (c : Cluster) (status : ClusterStatus) (w : V.World)
      → OneInRepair V S c w
      → OneInRepair V S (record c { status = status }) w
  unfolding get_member_name
  OneInRepair-status c status w alone = alone

module _ (V : Env) (S : MemberStore V) (K : MemberCalls V S) (C : ClusterCalls V S) where
  -- A whole pass over the cluster puts a member into repair only if no other one is.
  OneInRepair-IsSteady : IsLawful V → IsSteady V S K C (OneInRepair V S)
  OneInRepair-IsSteady L = record {
    same_spec = by_status V S K C (OneInRepair V S) (OneInRepair-status V S K);
    reads = λ c w w' same alone.
        NoneEnters-OneInRepair V S c w w' (NoneEnters-lookup V S c w w' same) alone;
    all_stored = λ c w alone. alone.0;
    repairs = λ f alone.
        Repairs-OneInRepair V S K f.self f.world (repair_members V f).1.world
          (repair_members-Repairs V S K f alone.0) alone;
    updates = λ f alone.
        NoneEnters-OneInRepair V S f.self f.world (update_members V f).1.world
          (update_members-NoneEnters V S L f.self f refl alone.0) alone;
  }

  -- The worlds that passes of both controllers lead to. A pass over the cluster finds it with any
  -- status.
  pub data Interleaves (issuer : String) (c : Cluster) (start : V.World) : V.World → Type 0 where
    starts : Interleaves issuer c start start
    cluster_passes :
        {w : V.World} (req : NamespacedName) (status : ClusterStatus)
        → Interleaves issuer c start w
        → (V.clusters.get req w).0 ≡ ok (record c { status = status })
        → Interleaves issuer c start (cluster_reconcile V issuer req w).1
    member_passes :
        {w : V.World} (req : NamespacedName)
        → Interleaves issuer c start w
        → Interleaves issuer c start (member_reconcile V req w).1

  -- If the API server behaves as documented (`IsLawful`, `MemberStore`, `MemberCalls`,
  -- `ClusterCalls`), then from a world in which all members of a cluster that is not being deleted are
  -- stored and at most one of them is being created or marked as broken, passes of the cluster
  -- controller over the cluster and passes of the member controller over any members, in any order and
  -- number, lose no member and never lead to a world in which two members are being created or marked
  -- as broken.
  pub Interleaves-OneInRepair :
      IsLawful V
      → (issuer : String) (c : Cluster) {start w : V.World} → c.metadata.deletion_timestamp ≡ none
      → OneInRepair V S c start
      → Interleaves issuer c start w
      → OneInRepair V S c w
  Interleaves-OneInRepair L issuer c alive alone starts = alone
  Interleaves-OneInRepair L issuer c alive alone (cluster_passes {w = w} req status before got) =
      reconcile-Holds V S K C (OneInRepair V S) (OneInRepair-IsSteady L) L issuer req c w status got
        alive (Interleaves-OneInRepair L issuer c alive alone before)
  Interleaves-OneInRepair L issuer c alive alone (member_passes {w = w} req before) =
      NoneEnters-OneInRepair V S c w (member_reconcile V req w).1
        (Reconciles-NoneEnters V S K c req w (member_reconcile V req w).1
          (reconcile-Reconciles V S K L req w))
        (Interleaves-OneInRepair L issuer c alive alone before)

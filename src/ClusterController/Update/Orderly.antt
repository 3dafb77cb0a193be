-- ===== src/ClusterController/Update/Orderly.antt =====
-- The roll-out as an interleaving (controllers/cluster_controller.go, `UpdateMembers`): passes of the
-- cluster's controller, and between them moves of the members, which take over the version that they
-- were asked for.
use etcdops.Base.{
  ℕ, ◌<◌, some, ◌≡◌, ◌≢◌, refl, sym, ◌∙◌, ap, subst, ◌⊎◌, inl, inr, arith, Bool-cases, ◌==◌, ltb,
}
use etcdops.Base.Int.{pos_part}
use etcdops.Types.Cluster.{Cluster, ClusterStatus, get_member_name}
use etcdops.Types.Member.{Member}
use etcdops.Env.{Env, IsLawful}
use etcdops.Env.Store.{MemberStore}
use etcdops.ClusterController.Update.{update_members}
use etcdops.ClusterController.Update.Rolling.{Fr}
use etcdops.ClusterController.Update.Effects.{stored, IsCurrent}
use etcdops.ClusterController.Update.Pass.{
  AllStored, CurrentBetween, Passes, rests, asks, Passes-AllStored,
}
use etcdops.ClusterController.Update.Asking.{update_members-Passes}

module _ (V : Env) (S : MemberStore V) where
  -- Between two passes a member may take over the version that it was asked for.
  abbrev pub Moves : Cluster → V.World → V.World → Type 0
  Moves c w w' =
      (k : ℕ) (n : Member)
      → k < pos_part c.spec.size
      → stored V S c w k ≡ some n
      → (n' : Member) × (stored V S c w' k ≡ some n')
        × (n'.spec.version ≡ n.spec.version)
        × ((n'.status.version ≡ n.status.version) ⊎ (n'.status.version ≡ n.spec.version))

  -- The member was asked for the cluster's version and does not run it yet.
  abbrev pub IsMoving : Cluster → Member → Type 0
  IsMoving c m = (m.spec.version ≡ c.spec.version) × (m.status.version ≢ c.spec.version)

  -- The members in front of one that is on its way run the cluster's version.
  abbrev pub IsOrderly : Cluster → V.World → Type 0
  IsOrderly c w =
      AllStored V S c w
      × ((l : ℕ) (m : Member)
          → l < pos_part c.spec.size
          → stored V S c w l ≡ some m
          → IsMoving c m
          → CurrentBetween V S c 0 l w)

  pub Moves-IsOrderly :
      (c : Cluster) (w w' : V.World) → Moves c w w' → IsOrderly c w → IsOrderly c w'
  Moves-IsOrderly c w w' moves (all, ordered) = (
    λ k small.
        let (n, there) = all k small in
        let (n', there', _, _) = moves k n small there in (n', there'),
    λ l m' small there' (is_spec, runs_other) k x' low high stored'.
        let (m, there) = all l small in
        let (y, there'', spec, status) = moves l m small there in
        let same : y ≡ m' = ground arith in
        let asked : m.spec.version ≡ c.spec.version =
          sym spec ∙ ap (λ z. z.spec.version) same ∙ is_spec in
        let not_there : m.status.version ≢ c.spec.version = λ q. elim status [
          | inl kept ↦ runs_other (ap (λ z. z.status.version) (sym same) ∙ kept ∙ q)
          | inr took ↦ runs_other (ap (λ z. z.status.version) (sym same) ∙ took ∙ asked)
        ] in
        let (x, stored_k) = all k (omega arith) in
        let (z, stored_z, spec_z, status_z) = moves k x (omega arith) stored_k in
        let equal : z ≡ x' = ground arith in
        let (asked_x, runs_x) = ordered l m small there (asked, not_there) k x low high stored_k in
        (
          ap (λ q. q.spec.version) (sym equal) ∙ spec_z ∙ asked_x,
          ap (λ q. q.status.version) (sym equal)
              ∙ elim status_z [ inl kept ↦ kept ∙ runs_x | inr took ↦ took ∙ asked_x ],
        ),
  )

  pub Passes-IsOrderly :
      (c : Cluster) (w w' : V.World) → Passes V S c w w' → IsOrderly c w → IsOrderly c w'
  Passes-IsOrderly c w w' (rests same) orderly =
      Moves-IsOrderly c w w'
        (λ k n _ there.
          let (n', there', (spec, status)) = same k n there in (n', there', spec, inl status))
        orderly
  Passes-IsOrderly c w w' (asks j m m' small current known old there spec status others)
        (all, ordered) =
      (
        Passes-AllStored V S c w w' (asks j m m' small current known old there spec status others)
            all,
        λ l m_l' small_l there_l' (is_spec, runs_other) k x' low high there_k'.
            let front : k ≢ j
                → ((x : Member) → stored V S c w k ≡ some x → IsCurrent V S c x)
                → IsCurrent V S c x' =
              λ apart current_k.
                let (x, there_k) = all k (omega arith) in
                let (z, there_z, (spec_z, status_z)) = others k x apart there_k in
                let equal : z ≡ x' = ground arith in
                let (asked_x, runs_x) = current_k x there_k in
                (
                  ap (λ q. q.spec.version) (sym equal) ∙ spec_z ∙ asked_x,
                  ap (λ q. q.status.version) (sym equal) ∙ status_z ∙ runs_x,
                ) in
            elim (Bool-cases (l == j)) [
              | inl first ↦ front (λ e. ground arith) (λ x. current k x low (ground arith))
              | inr h ↦
                  let (n, there_l) = all l small_l in
                  let (y, there_y, (spec_y, status_y)) = others l n (λ e. ground arith) there_l in
                  let same : y ≡ m_l' = ground arith in
                  let was_moving : IsMoving c n = (
                    sym spec_y ∙ ap (λ z. z.spec.version) same ∙ is_spec,
                    λ q. runs_other (ap (λ z. z.status.version) (sym same) ∙ status_y ∙ q),
                  ) in
                  let before = ordered l n small_l there_l was_moving in
                  elim (Bool-cases (k == j)) [
                    | inr at_other ↦ front (λ e. ground arith) (λ x. before k x low high)
                    | inl at_j ↦
                        let there_j : stored V S c w k ≡ some m =
                          subst (λ i. stored V S c w i ≡ some m) (ground arith) known in
                        let (asked_j, _) = before k m low high there_j in absurd (old asked_j)
                  ]
            ],
      )

  -- The worlds that passes of `UpdateMembers` and moves of the members lead to. A pass works on the
  -- cluster as it read it, whatever its status is.
  pub data Reachable (c : Cluster) (start : V.World) : V.World → Type 0 where
    begins : Reachable c start start
    passes :
        {w : V.World} (status : ClusterStatus)
        → Reachable c start w
        → Reachable c start
            (update_members V (record { world = w; self = record c { status = status } })).1.world
    moves : {w w' : V.World} → Reachable c start w → Moves c w w' → Reachable c start w'

  Passes-status :
      (c : Cluster) (status : ClusterStatus) (w w' : V.World)
      → Passes V S (record c { status = status }) w w'
      → Passes V S c w w'
  unfolding get_member_name
  Passes-status c status w w' (rests same) = rests same
  Passes-status c status w w' (asks j m m' small current known old there spec runs others) =
      asks j m m' small current known old there spec runs others

  -- All worlds on the way are orderly.
  Reachable-IsOrderly :
      IsLawful V
      → (c : Cluster) {start w : V.World} → IsOrderly c start
      → Reachable c start w
      → IsOrderly c w
  unfolding get_member_name
  Reachable-IsOrderly L c orderly begins = orderly
  Reachable-IsOrderly L c orderly (passes {w = w} status before) =
      let (all, ordered) = Reachable-IsOrderly L c orderly before in
      let f : Fr V = record { world = w; self = record c { status = status } } in
      Passes-IsOrderly c w (update_members V f).1.world
        (Passes-status c status w (update_members V f).1.world
          (update_members-Passes V S L f.self f refl all))
        (all, ordered)
  Reachable-IsOrderly L c orderly (moves {w = w} {w' = w'} before step) =
      Moves-IsOrderly c w w' step (Reachable-IsOrderly L c orderly before)

  -- The status of the cluster is not looked at.
  pub IsOrderly-status :
      (c : Cluster) (status : ClusterStatus) (w : V.World)
      → IsOrderly c w
      → IsOrderly (record c { status = status }) w
  unfolding get_member_name
  IsOrderly-status c status w orderly = orderly

  -- At most one member is on its way to the cluster's version.
  abbrev pub OneMoves : Cluster → V.World → Type 0
  OneMoves c w =
      (k l : ℕ) (m n : Member)
      → k < pos_part c.spec.size
      → l < pos_part c.spec.size
      → stored V S c w k ≡ some m
      → stored V S c w l ≡ some n
      → IsMoving c m
      → IsMoving c n
      → k ≡ l

  pub IsOrderly-OneMoves : (c : Cluster) (w : V.World) → IsOrderly c w → OneMoves c w
  IsOrderly-OneMoves c w orderly k l m n small_k small_l there_k there_l moving_k moving_l =
      let (_, ordered) = orderly in
      elim (Bool-cases (ltb k l)) [
        | inl h ↦
            let (_, runs) =
              ordered l n small_l there_l moving_l k m (omega arith) (ground arith) there_k in
            absurd (moving_k.1 runs)
        | inr h ↦ elim (Bool-cases (ltb l k)) [
          | inl h' ↦
              let (_, runs) =
                ordered k m small_k there_k moving_k l n (omega arith) (ground arith) there_l in
              absurd (moving_l.1 runs)
          | inr h' ↦ ground arith
        ]
      ]

  -- If the API server behaves as documented (`IsLawful`, `MemberStore`), then from a world in which
  -- all members are stored and the members in front of each one that is on its way to the cluster's
  -- version run it, no interleaving of passes of `UpdateMembers` with moves of the members leads to a
  -- world in which two members are on their way.
  pub Reachable-OneMoves :
      IsLawful V
      → (c : Cluster) {start w : V.World} → IsOrderly c start
      → Reachable c start w
      → OneMoves c w
  Reachable-OneMoves L c {w = w} orderly before =
      IsOrderly-OneMoves c w (Reachable-IsOrderly L c orderly before)

-- ===== src/ClusterController/Update/Progress.antt =====
-- Progress of a roll-out (controllers/cluster_controller.go, `UpdateMembers`): passes of the cluster's
-- controller in turn with moves in which the members take over the version that they were asked for.
use etcdops.Base.{
  ℕ, suc, ◌≤◌, ◌<◌, false, some, ◌≡◌, refl, sym, ◌∙◌, ap, subst, inl, inr, arith, Bool-cases, ◌==◌,
  ltb,
}
use etcdops.Base.Int.{pos_part}
use etcdops.Kube.{done}
use etcdops.Types.Cluster.{Cluster, ClusterStatus, get_member_name}
use etcdops.Types.Member.{Member}
use etcdops.Env.{Env, IsLawful, proceed}
use etcdops.Env.Store.{MemberStore}
use etcdops.ClusterController.Update.{update_members}
use etcdops.ClusterController.Update.Rolling.{Fr, stops, completes, update_members-Rolls}
use etcdops.ClusterController.Update.Effects.{stored, member_key, IsCurrent}
use etcdops.ClusterController.Update.Pass.{
  AllStored, AllSettled-CurrentBetween, Passes, rests, asks, Passes-AllStored,
}
use etcdops.ClusterController.Update.Asking.{update_members-Passes}
use etcdops.ClusterController.Update.Calm.{Willing, IsCalm, AllCalm, AllSettled-reads, Stops-asks}

module _ (V : Env) (S : MemberStore V) where
  -- The first `r` members were asked for the cluster's version.
  abbrev AskedBelow : Cluster → ℕ → V.World → Type 0
  AskedBelow c r w =
      (k : ℕ) (m : Member) → k < r → stored V S c w k ≡ some m → m.spec.version ≡ c.spec.version

  AllCalm-AllStored : (c : Cluster) (w : V.World) → AllCalm V S c w → AllStored V S c w
  AllCalm-AllStored c w calm k small = let (m, known, _) = calm k small in (m, known)

  -- What was asked for stays.
  Passes-keeps_asked :
      (c : Cluster) (w w' : V.World) (k : ℕ) {m m' : Member}
      → Passes V S c w w'
      → stored V S c w k ≡ some m
      → m.spec.version ≡ c.spec.version
      → stored V S c w' k ≡ some m'
      → m'.spec.version ≡ c.spec.version
  Passes-keeps_asked c w w' k {m} {m'} (rests same) known asked known' =
      let (n', there', (spec, _)) = same k m known in
      let equal : n' ≡ m' = ground arith in ap (λ y. y.spec.version) (sym equal) ∙ spec ∙ asked
  Passes-keeps_asked c w w' k {m} {m'} (asks j _ n _ _ _ _ there is _ others) known asked known' =
      elim (Bool-cases (k == j)) [
        | inl h ↦
            let there' : stored V S c w' k ≡ some n =
              subst (λ i. stored V S c w' i ≡ some n) (ground arith) there in
            let equal : n ≡ m' = ground arith in ap (λ y. y.spec.version) (sym equal) ∙ is
        | inr h ↦
            let (n', there', (spec, _)) = others k m (λ e. ground arith) known in
            let equal : n' ≡ m' = ground arith in
            ap (λ y. y.spec.version) (sym equal) ∙ spec ∙ asked
      ]

  -- A pass over members at rest asks one more.
  pass_asks :
      IsLawful V
      → Willing V S
      → (c : Cluster) (f : Fr V) (r : ℕ) → f.self ≡ c
      → c.status.certificate_expires ≡ false
      → AllCalm V S c f.world
      → r < pos_part c.spec.size
      → AskedBelow c r f.world
      → AskedBelow c (suc r) (update_members V f).1.world
  pass_asks L W c f r e valid calm small before k m' low known' =
      let (m, known, _) = calm k (omega arith) in
      let w' = (update_members V f).1.world in
      let passed = update_members-Passes V S L c f e (AllCalm-AllStored c f.world calm) in
      let keep : m.spec.version ≡ c.spec.version → m'.spec.version ≡ c.spec.version =
        λ asked. Passes-keeps_asked c f.world w' k passed known asked known' in
      elim (Bool-cases (ltb k r)) [
        | inl h ↦ keep (before k m (ground arith) known)
        | inr at_end ↦ elim (update_members-Rolls V L f) [
          | completes j h settled end _ _ ↦
              let in_size : pos_part f.self.spec.size ≡ pos_part c.spec.size =
                ap (λ d. pos_part d.spec.size) e in
              let (_, _, runs) =
                AllSettled-CurrentBetween V S c settled e (omega arith)
                  (AllCalm-AllStored c f.world calm) in
              keep (runs k m (omega arith) (omega arith) known).0
          | stops j h settled le stop ↦
              let in_size : pos_part f.self.spec.size ≡ pos_part c.spec.size =
                ap (λ d. pos_part d.spec.size) e in
              let (_, _, runs) =
                AllSettled-CurrentBetween V S c settled e (omega arith)
                  (AllCalm-AllStored c f.world calm) in
              let (self, kept) = AllSettled-reads V S c f h settled e valid (omega arith) calm in
              let (n, there, calm_j) = calm j (omega arith) in
              let (old, (y, there', is)) =
                Stops-asks V S W c j h (update_members V f).1 stop self valid
                  (kept (member_key c j) ∙ there) calm_j in
              elim (Bool-cases (ltb k j)) [
                | inl h' ↦ keep (runs k m (omega arith) (ground arith) known).0
                | inr h' ↦ elim (Bool-cases (k == j)) [
                  | inl at_j ↦
                      let here : stored V S c w' k ≡ some y =
                        subst (λ i. stored V S c w' i ≡ some y) (ground arith) there' in
                      let equal : y ≡ m' = ground arith in ap (λ z. z.spec.version) (sym equal) ∙ is
                  | inr apart ↦ absurd (old (before j n (ground arith) there))
                ]
              ]
        ]
      ]

  -- Between two passes, each member takes over the version that it was asked for, and comes to rest.
  abbrev pub Rests : Cluster → V.World → V.World → Type 0
  Rests c w w' =
      (k : ℕ) (n : Member)
      → k < pos_part c.spec.size
      → stored V S c w k ≡ some n
      → (n' : Member) × (stored V S c w' k ≡ some n')
        × (n'.spec.version ≡ n.spec.version)
        × IsCalm V S n'

  -- A pass works on the cluster as it read it, with any status in which no certificates are due.
  abbrev pub read_as : Cluster → ClusterStatus → V.World → Fr V
  read_as c status w = record { world = w; self = record c { status = status } }

  -- Rounds of one pass and one move each
  pub data Rounds (c : Cluster) (start : V.World) : ℕ → V.World → Type 0 where
    begins : Rounds c start 0 start
    turns :
        {r : ℕ} {w w' : V.World} (status : ClusterStatus)
        → status.certificate_expires ≡ false
        → Rounds c start r w
        → Rests c (update_members V (read_as c status w)).1.world w'
        → Rounds c start (suc r) w'

  Rests-AllCalm :
      (c : Cluster) (w w' : V.World) → AllStored V S c w → Rests c w w' → AllCalm V S c w'
  Rests-AllCalm c w w' all rest k small =
      let (n, known) = all k small in
      let (n', known', _, calm) = rest k n small known in (n', known', calm)

  Rests-AskedBelow :
      (c : Cluster) (r : ℕ) (w w' : V.World)
      → r ≤ pos_part c.spec.size
      → AllStored V S c w
      → Rests c w w'
      → AskedBelow c r w
      → AskedBelow c r w'
  Rests-AskedBelow c r w w' le all rest asked k m' low known' =
      let (n, known) = all k (omega arith) in
      let (n', there', spec, _) = rest k n (omega arith) known in
      let equal : n' ≡ m' = ground arith in
      ap (λ y. y.spec.version) (sym equal) ∙ spec ∙ asked k n low known

  Rounds-AskedBelow :
      IsLawful V
      → Willing V S
      → (c : Cluster) {start w : V.World} {r : ℕ} → AllCalm V S c start
      → Rounds c start r w
      → r ≤ pos_part c.spec.size
      → AllCalm V S c w × AskedBelow c r w
  unfolding get_member_name
  Rounds-AskedBelow L W c calm begins le = (calm, λ k m low. absurd (omega (arith, low)))
  Rounds-AskedBelow L W c calm (turns {r = r} {w = w} {w' = w'} status valid before rest) le =
      let (calm_w, asked) = Rounds-AskedBelow L W c calm before (omega arith) in
      let f = read_as c status w in
      let u = (update_members V f).1.world in
      let all : AllStored V S c u =
        Passes-AllStored V S f.self w u
          (update_members-Passes V S L f.self f refl (AllCalm-AllStored c w calm_w))
          (AllCalm-AllStored c w calm_w) in
      let one_more : AskedBelow c (suc r) u = pass_asks L W f.self f r refl valid calm_w le asked in
      (Rests-AllCalm c u w' all rest, Rests-AskedBelow c (suc r) u w' le all rest one_more)

  -- If the API server behaves as documented (`IsLawful`, `MemberStore`) and has no fault (`Willing`),
  -- the members of the start are stored and at rest, and no certificates are due, then as many rounds
  -- as the cluster has members, each a pass of `UpdateMembers` and a move in which the members take
  -- over the version that they were asked for, lead to a world in which every member runs the
  -- cluster's version and was asked for it, and there a pass ends with nothing left to do.
  pub Rounds-ends :
      IsLawful V
      → Willing V S
      → (c : Cluster) {start w : V.World} (status : ClusterStatus) → AllCalm V S c start
      → Rounds c start (pos_part c.spec.size) w
      → status.certificate_expires ≡ false
      → ((k : ℕ) (m : Member)
          → k < pos_part c.spec.size
          → stored V S c w k ≡ some m
          → IsCurrent V S c m)
        × ((update_members V (read_as c status w)).0 ≡ done (proceed V))
  unfolding get_member_name
  Rounds-ends L W c {w = w} status calm rounds valid =
      let (calm_w, asked) = Rounds-AskedBelow L W c calm rounds (omega arith) in
      let f = read_as c status w in
      (
        λ k m small known.
            let (n, there, (_, runs, _)) = calm_w k small in
            let equal : n ≡ m = ground arith in
            let is = asked k m small known in
            (
              is,
              ap (λ y. y.status.version) (sym equal) ∙ runs ∙ ap (λ y. y.spec.version) equal ∙ is,
            ),
        elim (update_members-Rolls V L f) [
          | completes j h settled end ended _ ↦ ended
          | stops j h settled le stop ↦
              let (self, kept) =
                AllSettled-reads V S f.self f h settled refl valid (omega arith) calm_w in
              let (n, there, calm_j) = calm_w j (omega arith) in
              let (old, _) =
                Stops-asks V S W f.self j h (update_members V f).1 stop self valid
                  (kept (member_key c j) ∙ there) calm_j in
              absurd (old (asked j n (omega arith) there))
        ],
      )

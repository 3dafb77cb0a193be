-- ===== src/ClusterController/Update/Pass.antt =====
-- The shapes of one pass of `UpdateMembers` (controllers/cluster_controller.go) over the stored
-- members.
use etcdops.Base.{
  ℕ, suc, ◌≤◌, ◌<◌, some, ◌≡◌, ◌≢◌, refl, sym, ◌∙◌, ap, subst, inl, inr, arith, Bool-cases, ◌==◌,
}
use etcdops.Base.Int.{pos_part}
use etcdops.Types.Cluster.{Cluster}
use etcdops.Types.Member.{Member}
use etcdops.Env.{Env}
use etcdops.Env.Store.{MemberStore}
use etcdops.ClusterController.Update.Rolling.{Fr, AllSettled, here, next}
use etcdops.ClusterController.Update.Effects.{
  stored, SameVersion, SameVersions, SameVersions-trans, IsCurrent, Settles-IsCurrent,
}

module _ (V : Env) (S : MemberStore V) where
  -- All members of the cluster are stored.
  abbrev pub AllStored : Cluster → V.World → Type 0
  AllStored c w = (k : ℕ) → k < pos_part c.spec.size → (m : Member) × (stored V S c w k ≡ some m)

  -- Members `i` to `j`, without `j`, are current.
  abbrev pub CurrentBetween : Cluster → ℕ → ℕ → V.World → Type 0
  CurrentBetween c i j w =
      (k : ℕ) (m : Member) → i ≤ k → k < j → stored V S c w k ≡ some m → IsCurrent V S c m

  pub AllSettled-le : {i j : ℕ} {f h : Fr V} → AllSettled V i j f h → i ≤ j
  AllSettled-le here = omega arith
  AllSettled-le (next settled later) = omega (arith, AllSettled-le later)

  -- What is settled was current, and the settling changes no version.
  pub AllSettled-CurrentBetween :
      {i j : ℕ} {f h : Fr V} (c : Cluster)
      → AllSettled V i j f h
      → f.self ≡ c
      → j ≤ pos_part c.spec.size
      → AllStored c f.world
      → (h.self ≡ c) × SameVersions V S c f.world h.world × CurrentBetween c i j f.world
  AllSettled-CurrentBetween c (here {f = f}) e le all =
      (e, λ k n h. (n, h, (refl, refl)), λ k m low high known. absurd (omega arith))
  AllSettled-CurrentBetween c (next {i = i} {j = j} {f = f} {g = g} {h = h} settled later) e le
        all =
      let (m, known) = all i (omega (arith, AllSettled-le later)) in
      let (self, same, current) = Settles-IsCurrent V S settled (rw (sym e) at known) in
      let same' : SameVersions V S c f.world g.world = rw e at same in
      let (self', after, rest) =
        AllSettled-CurrentBetween {i = suc i} {j = j} {f = g} {h = h} c later (self ∙ e) le
          (λ k small.
            let (n, there) = all k small in
            let (n', there', _) = same' k n there in (n', there')) in
      (
        self',
        SameVersions-trans V S c f.world g.world h.world same' after,
        λ k n low high there. elim (Bool-cases (k == i)) [
          | inl first ↦
              let at_i : k ≡ i = ground arith in
              let there' : stored V S c f.world i ≡ some n =
                subst (λ x. stored V S c f.world x ≡ some n) at_i there in
              let same_member : m ≡ n = ground arith in
              let current' : IsCurrent V S c m = rw e at current in
              subst (IsCurrent V S c) same_member current'
          | inr apart ↦
              let (n', there', (spec, status)) = same' k n there in
              let (spec', status') = rest k n' (ground arith) high there' in
              (sym spec ∙ spec', sym status ∙ status')
        ],
      )

  -- What a pass does to the stored members: it changes no version, or it asks one member, behind
  -- members that are current, for the cluster's version, which it was not asked for before.
  pub data Passes (c : Cluster) (w w' : V.World) : Type 0 where
    rests : SameVersions V S c w w' → Passes c w w'
    asks :
        (j : ℕ) (m m' : Member)
        → j < pos_part c.spec.size
        → CurrentBetween c 0 j w
        → stored V S c w j ≡ some m
        → m.spec.version ≢ c.spec.version
        → stored V S c w' j ≡ some m'
        → m'.spec.version ≡ c.spec.version
        → m'.status.version ≡ m.status.version
        → ((k : ℕ) (n : Member)
            → k ≢ j
            → stored V S c w k ≡ some n
            → (n' : Member) × (stored V S c w' k ≡ some n') × SameVersion n n')
        → Passes c w w'

  -- Versions that were the same before are the same behind.
  pub CurrentBetween-back :
      (c : Cluster) (i j : ℕ) (w w' : V.World)
      → SameVersions V S c w w'
      → CurrentBetween c i j w
      → AllStored c w
      → j ≤ pos_part c.spec.size
      → CurrentBetween c i j w'
  CurrentBetween-back c i j w w' same current all le k n' low high there' =
      let (n, there) = all k (omega arith) in
      let (x, there'', (spec, status)) = same k n there in
      let (spec', status') = current k n low high there in
      let equal : x ≡ n' = ground arith in
      (
        ap (λ y. y.spec.version) (sym equal) ∙ spec ∙ spec',
        ap (λ y. y.status.version) (sym equal) ∙ status ∙ status',
      )

  -- What a pass does behind a part that changes no version, the whole pass does.
  pub after_same :
      (c : Cluster) (w v u : V.World)
      → SameVersions V S c w v
      → AllStored c w
      → Passes c v u
      → Passes c w u
  after_same c w v u same all (rests last) = rests (SameVersions-trans V S c w v u same last)
  after_same c w v u same all (asks j m m' small current known old there spec status others) =
      let (n, there_j) = all j small in
      let (x, there', (spec', status')) = same j n there_j in
      let equal : x ≡ m = ground arith in
      asks j n m' small
        (λ k y low high stored_k.
          let (z, stored_z, (spec_z, status_z)) = same k y stored_k in
          let (is_spec, is_status) = current k z low high stored_z in
          (sym spec_z ∙ is_spec, sym status_z ∙ is_status))
        there_j (λ q. old (ap (λ y. y.spec.version) (sym equal) ∙ spec' ∙ q)) there spec
        (status ∙ ap (λ y. y.status.version) (sym equal) ∙ status')
        (λ k y apart stored_k.
          let (z, stored_z, (spec_z, status_z)) = same k y stored_k in
          let (z', stored_z', (spec_z', status_z')) = others k z apart stored_z in
          (z', stored_z', (spec_z' ∙ spec_z, status_z' ∙ status_z)))

  -- A pass loses no member.
  pub Passes-AllStored :
      (c : Cluster) (w w' : V.World) → Passes c w w' → AllStored c w → AllStored c w'
  Passes-AllStored c w w' (rests same) all k small =
      let (n, there) = all k small in let (n', there', _) = same k n there in (n', there')
  Passes-AllStored c w w' (asks j m m' _ _ _ _ there _ _ others) all k small =
      elim (Bool-cases (k == j)) [
        | inl h ↦ (m', subst (λ i. stored V S c w' i ≡ some m') (ground arith) there)
        | inr h ↦
            let (n, stored_k) = all k small in
            let (n', stored', _) = others k n (λ e. ground arith) stored_k in (n', stored')
      ]

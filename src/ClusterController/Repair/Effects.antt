-- ===== src/ClusterController/Repair/Effects.antt =====
-- What a pass of `RepairMembers` does to the members that the server stores
-- (controllers/cluster_controller.go).
use mathlib.Core.List.{Memᴰ}
use etcdops.Base.{
  ℕ, zero, suc, ◌+◌, ◌≤◌, ◌<◌, List, [], ◌∷◌, none, some, ◌≡◌, refl, sym, ◌∙◌, ap, subst, ◌⊎◌, inl,
  inr, arith, All, All-mem, Bool-cases, ◌==◌,
}
use etcdops.Base.Int.{pos_part}
use etcdops.Kube.{done, Frame, NamespacedName}
use etcdops.Kube.Laws.{Outcome-cases}
use etcdops.Types.Cluster.{Cluster}
use etcdops.Types.Member.{Member}
use etcdops.Env.{Env}
use etcdops.Env.Store.{MemberStore, MemberCalls}
use etcdops.ClusterController.Members.{ensure_member}
use etcdops.ClusterController.Observe.{observe, moved, ensure_member-cases}
use etcdops.ClusterController.Update.Effects.{
  stored, member_key, ensure_member-keeps, reading, update-stored,
}
use etcdops.ClusterController.Update.Pass.{AllStored}
use etcdops.ClusterController.Repair.{mark_broken, find_failed, repair_members}
use etcdops.ClusterController.Repair.Choice.{consider_all, consider_all-Choice}
use etcdops.ClusterController.Repair.Safety.{
  IsCalm, clock_read, first_candidate, find_failed_reads, find_failed-All, repair_candidate-cases,
}

module _ (V : Env) (S : MemberStore V) (K : MemberCalls V S) where
  abbrev Fr : Type 0
  Fr = Frame V.World Cluster

  -- The stored members stay as they are.
  abbrev pub SameLookups : V.World → V.World → Type 0
  SameLookups w w' = (k : NamespacedName) → S.lookup k w' ≡ S.lookup k w

  -- Members `i` to `i + n`, without the last, are stored.
  abbrev pub StoredFrom : ℕ → ℕ → Fr → Type 0
  StoredFrom n i f =
      (k : ℕ) → i ≤ k → k < i + n → (m : Member) × (stored V S f.self f.world k ≡ some m)

  -- Behind the reading of a stored member
  behind_member :
      (n i : ℕ) (f : Fr) {x : Member} {w : V.World}
      → ensure_member V i f ≡ (done (some x, none), moved V f w)
      → StoredFrom (suc n) i f
      → (stored V S f.self f.world i ≡ some x)
        × SameLookups f.world w
        × StoredFrom n (suc i) (moved V f w)
  behind_member n i f {x} {w} p all =
      let (m, known) = all i (omega arith) (omega arith) in
      let (same, _, kept) = reading V S i f (moved V f w) p known in
      (
        known ∙ ap some (sym same),
        kept,
        λ k low high.
            let (y, there) = all k (omega arith) (omega arith) in
            (y, kept (member_key f.self k) ∙ there),
      )

  -- Reading stored members changes none of them.
  pub observe-keeps :
      (n i : ℕ) (f : Fr) → StoredFrom n i f → SameLookups f.world (observe V n i f).1.world
  unfolding observe
  observe-keeps zero i f all k = refl
  observe-keeps (suc n) i f all k = elim (ensure_member-cases V i f) [
    | inr (e, w, p) ↦
        let (m, known) = all i (omega arith) (omega arith) in
        let (_, kept) = ensure_member-keeps V S i f known in ground (arith, kept k)
    | inl (x, w, p) ↦
        let (_, kept, later) = behind_member n i f p all in
        ground (arith, kept k, observe-keeps n (suc i) (moved V f w) later k)
  ]

  -- The members that a pass has read are the stored ones.
  observe-stored :
      (n i : ℕ) (f g : Fr) {ms : List Member}
      → observe V n i f ≡ (done ms, g)
      → StoredFrom n i f
      → ((x : Member) → Memᴰ x ms → (k : ℕ) × (k < i + n) × (stored V S f.self f.world k ≡ some x))
        × ((k : ℕ) (m : Member)
            → i ≤ k
            → k < i + n
            → stored V S f.self f.world k ≡ some m
            → Memᴰ m ms)
  unfolding observe
  observe-stored zero i f g {ms} read all =
      let e : ms ≡ [] = ground arith in
      (
        λ x among. elim (subst (Memᴰ x) e among) [ ],
        λ k m low high known. absurd (omega (arith, low, high)),
      )
  observe-stored (suc n) i f g {ms} read all = elim (ensure_member-cases V i f) [
    | inr (e, w, p) ↦ absurd (ground arith)
    | inl (x, w, p) ↦
        let (here, kept, behind) = behind_member n i f p all in
        let later = observe V n (suc i) (moved V f w) in
        elim (Outcome-cases later.0) [
          | inr q ↦ absurd (ground arith)
          | inl (rest, q) ↦
              let e : ms ≡ x ∷ rest = ground arith in
              let (from, into) =
                observe-stored n (suc i) (moved V f w) g {ms = rest} (ground arith) behind in
              (
                λ y among. elim (subst (Memᴰ y) e among) [
                  | Memᴰ.head same ↦ (i, omega arith, here ∙ ap some (sym same))
                  | Memᴰ.tail among' ↦
                      let (k, high, there) = from y among' in
                      (k, omega (arith, high), sym (kept (member_key f.self k)) ∙ there)
                ],
                λ k m low high known. subst (Memᴰ m) (sym e) (elim (Bool-cases (k == i)) [
                  | inl first ↦
                      let there : stored V S f.self f.world i ≡ some m =
                        subst (λ j. stored V S f.self f.world j ≡ some m) (ground arith) known in
                      let same : m ≡ x = ground (arith, here) in Memᴰ.head same
                  | inr apart ↦
                      Memᴰ.tail
                        (into k m (ground arith) (omega arith) (kept (member_key f.self k) ∙ known))
                ]),
              )
        ]
  ]

  -- What a pass does: it only reads, or all members are calm and it marks one of them.
  pub data Repairs (c : Cluster) (w w' : V.World) : Type 0 where
    looks : SameLookups w w' → Repairs c w w'
    marks :
        (j : ℕ) (m : Member)
        → j < pos_part c.spec.size
        → stored V S c w j ≡ some m
        → ((k : ℕ) (y : Member) → k < pos_part c.spec.size → stored V S c w k ≡ some y → IsCalm y)
        → ((k : ℕ) (y : Member)
            → stored V S c w k ≡ some y
            → (y' : Member) × (stored V S c w' k ≡ some y')
              × ((y' ≡ y) ⊎ ((k ≡ j) × (y'.spec ≡ (mark_broken m).spec) × (y'.status ≡ y.status))))
        → Repairs c w w'

  AllStored-StoredFrom :
      (f : Fr)
      → AllStored V S f.self f.world
      → StoredFrom (pos_part f.self.spec.size) 0 (clock_read V f)
  AllStored-StoredFrom f all k low high =
      let (m, known) = all k (omega (arith, high)) in
      (m, K.now_keeps f.world (member_key f.self k) ∙ known)

  -- The loop reads stored members.
  find_failed-keeps :
      (f : Fr)
      → AllStored V S f.self f.world
      → SameLookups f.world
          (find_failed V
            (pos_part f.self.spec.size)
            0
            (first_candidate V f)
            (clock_read V f)).1.world
  find_failed-keeps f all k =
      let n = pos_part f.self.spec.size in
      let from = AllStored-StoredFrom f all in
      let (j, le, same) = find_failed_reads V n 0 (first_candidate V f) (clock_read V f) in
      ap (λ g. S.lookup k g.world) same
      ∙ observe-keeps j 0 (clock_read V f) (λ i low high. from i low (omega (arith, high, le))) k
      ∙ K.now_keeps f.world k

  marking :
      (f g : Fr) (ms : List Member) (m : Member) (w : V.World)
      → AllStored V S f.self f.world
      → SameLookups f.world g.world
      → observe V (pos_part f.self.spec.size) 0 (clock_read V f) ≡ (done ms, g)
      → All IsCalm ms
      → (consider_all ms (first_candidate V f)).failed_member ≡ some m
      → w ≡ (V.members.update (mark_broken m) g.world).1
      → Repairs f.self f.world w
  marking f g ms m w all kept read calm chosen wrote =
      let n = pos_part f.self.spec.size in
      let (from, into) = observe-stored n 0 (clock_read V f) g read (AllStored-StoredFrom f all) in
      elim (consider_all-Choice ms (first_candidate V f)) [
        | inl (nobody, _) ↦ absurd (ground arith)
        | inr (x, took, among, _, _, _) ↦
            let same : x ≡ m = ground arith in
            let (j, high, there_x) = from x among in
            let there : stored V S f.self (clock_read V f).world j ≡ some m =
              there_x ∙ ap some same in
            let at_start : stored V S f.self f.world j ≡ some m =
              sym (K.now_keeps f.world (member_key f.self j)) ∙ there in
            let at_end : stored V S f.self g.world j ≡ some m =
              kept (member_key f.self j) ∙ at_start in
            marks j m (omega (arith, high)) at_start
              (λ k y small known.
                All-mem IsCalm
                  (into k y (omega arith) (omega (arith, small))
                    (K.now_keeps f.world (member_key f.self k) ∙ known))
                  calm)
              (λ k y known.
                let (y', there', how) =
                  update-stored V S f.self j k (mark_broken m) g.world (S.lookup_keyed at_end)
                    at_end (kept (member_key f.self k) ∙ known) in
                (y', ap (λ v. stored V S f.self v k) wrote ∙ there', how))
      ]

  pub repair_members-Repairs :
      (f : Fr) → AllStored V S f.self f.world → Repairs f.self f.world (repair_members V f).1.world
  unfolding repair_members
  repair_members-Repairs f all =
      let n = pos_part f.self.spec.size in
      let run = find_failed V n 0 (first_candidate V f) (clock_read V f) in
      let kept = find_failed-keeps f all in
      elim (Outcome-cases run.0) [
        | inr crash ↦ looks (λ k. ground (arith, kept k))
        | inl (none, stop) ↦ looks (λ k. ground (arith, kept k))
        | inl (some k, end) ↦ elim (repair_candidate-cases V k run.1) [
          | inl same ↦ looks (λ j. ground (arith, kept j))
          | inr (m, chosen, _, wrote) ↦
              let (ms, read, calm, met) =
                find_failed-All V n 0 (first_candidate V f) (clock_read V f) {k' = k} end in
              marking f run.1 ms m (repair_members V f).1.world all kept read calm
                (rw met at chosen) (ground arith)
        ]
      ]

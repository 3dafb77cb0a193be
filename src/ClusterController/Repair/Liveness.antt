-- ===== src/ClusterController/Repair/Liveness.antt =====
-- When `RepairMembers` has to mark a member (controllers/cluster_controller.go).
use mathlib.Core.List.{Memᴰ}
use etcdops.Base.{
  ℕ, zero, suc, ◌*◌, ◌<◌, true, false, List, [], ◌∷◌, some, ◌≡◌, sym, ap, subst, inl, inr, count,
  All, arith, count-le-length,
}
use etcdops.Base.Int.{pos, pos_part, ltb_ℤ, ◌≤ℤ◌, ◌<ℤ◌, half_word, to_int, to_int_small}
use etcdops.Kube.{done, Frame}
use etcdops.Kube.Laws.{Outcome-cases}
use etcdops.Types.Cluster.{Cluster}
use etcdops.Types.Member.{Member}
use etcdops.Env.{Env}
use etcdops.ClusterController.Observe.{observe, observe-self, moved, ensure_member-cases}
use etcdops.ClusterController.Phase.{has_failed, observe-length}
use etcdops.ClusterController.Repair.{
  Candidate, consider, mark_broken, find_failed, repair_candidate, repair_members,
}
use etcdops.ClusterController.Repair.Choice.{consider_all, consider_all-count, consider_all_chooses}
use etcdops.ClusterController.Repair.Safety.{
  IsCalm, Marks, clock_read, deadline, first_candidate, mark,
}

count-positive :
    (ms : List Member) {x : Member} → Memᴰ x ms → has_failed x ≡ true → 0 < count has_failed ms
count-positive [] i h = elim i [ ]
count-positive (m ∷ ms) (Memᴰ.head e) h = let h' : has_failed m ≡ true = rw e at h in ground arith
count-positive (m ∷ ms) (Memᴰ.tail i) h = ground (arith, count-positive ms i h)

module _ (V : Env) where
  -- Over calm members the loop runs to its end.
  find_failed-done :
      (n i : ℕ) (k : Candidate) (f g : Frame V.World Cluster) {ms : List Member}
      → observe V n i f ≡ (done ms, g)
      → All IsCalm ms
      → find_failed V n i k f ≡ (done (some (consider_all ms k)), g)
  unfolding find_failed observe consider_all
  find_failed-done zero i k f g {ms = ms} read calm =
      let e : ms ≡ [] = ground arith in
      subst (λ l. find_failed V 0 i k f ≡ (done (some (consider_all l k)), g)) (sym e)
        (ground arith)
  find_failed-done (suc n) i k f g {ms = ms} read calm = elim (ensure_member-cases V i f) [
    | inr (e, w, p) ↦ absurd (ground arith)
    | inl (m, w, p) ↦
        let later = observe V n (suc i) (moved V f w) in
        elim (Outcome-cases later.0) [
          | inr q ↦ absurd (ground arith)
          | inl (rest, q) ↦
              let e : ms ≡ m ∷ rest = ground arith in
              let calm' : All IsCalm (m ∷ rest) = rw e at calm in
              let r =
                find_failed-done n (suc i) (consider m k) (moved V f w) g {ms = rest} (ground arith)
                  calm'.1 in
              let (made, marked) = calm'.0 in
              subst (λ l. find_failed V (suc n) i k f ≡ (done (some (consider_all l k)), g)) (sym e)
                (ground arith)
        ]
  ]

  -- If all members are read and none is being created or marked, if at most half of them have failed
  -- and one did so more than five minutes before the clock was read, then `RepairMembers` marks a
  -- member, with all that a repair promises. Twice the size has to fit into an `int`.
  pub repair_members-Marks :
      (f g : Frame V.World Cluster) {ms : List Member} {x : Member}
      → pos_part f.self.spec.size * 2 < half_word
      → observe V (pos_part f.self.spec.size) 0 (clock_read V f) ≡ (done ms, g)
      → All IsCalm ms
      → Memᴰ x ms
      → has_failed x ≡ true
      → x.status.failed_time <ℤ deadline V f
      → pos (count has_failed ms * 2) ≤ℤ f.self.spec.size
      → Marks V f (repair_members V f).1
  unfolding repair_members repair_candidate
  repair_members-Marks f g {ms = ms} small read calm among failed overdue minority =
      let start = first_candidate V f in
      let n = pos_part f.self.spec.size in
      let total = count has_failed ms in
      let (m, chosen) = consider_all_chooses ms start among failed overdue in
      let ended = find_failed-done n 0 start (clock_read V f) g read calm in
      let kept : g.self ≡ f.self = ground (arith, observe-self V n 0 (clock_read V f)) in
      let counted : (consider_all ms start).failed_count ≡ total =
        omega (arith, consider_all-count ms start) in
      let all = observe-length V n 0 (clock_read V f) (ap (λ p. p.0) read) in
      let fits : total * 2 < half_word = omega (arith, count-le-length has_failed ms) in
      let enough : ltb_ℤ f.self.spec.size (pos (total * 2)) ≡ false = ground arith in
      let quorum : ltb_ℤ g.self.spec.size (to_int ((consider_all ms start).failed_count * 2))
          ≡ false =
        rw (kept, counted, to_int_small (total * 2) fits) enough in
      let goes : (repair_members V f).1 ≡ moved V g (V.members.update (mark_broken m) g.world).1 =
        ground (arith, count-positive ms among failed) in
      mark V f g (repair_members V f).1 ms m small read calm chosen quorum goes

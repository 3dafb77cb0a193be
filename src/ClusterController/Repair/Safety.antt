-- ===== src/ClusterController/Repair/Safety.antt =====
-- What `RepairMembers` may write, and when (controllers/cluster_controller.go).
use mathlib.Core.List.{Memᴰ}
use etcdops.Base.{
  ℕ, zero, suc, ◌*◌, ◌≤◌, ◌<◌, true, false, ◌||◌, List, [], ◌∷◌, none, some, ◌≡◌, refl, ◌⊎◌, inl,
  inr, count, All, ap, Bool-cases, arith, Option-cases, ◌==◌, count-le-length, length,
}
use etcdops.Base.Int.{ℤ, pos, pos_part, ltb_ℤ, ◌≤ℤ◌, ◌<ℤ◌, ◌-ℤ◌, half_word, to_int, to_int_small}
use etcdops.Kube.{done, Frame, Time}
use etcdops.Kube.Laws.{Outcome-cases}
use etcdops.Types.Cluster.{Cluster}
use etcdops.Types.Member.{Member, is_creating}
use etcdops.Env.{Env}
use etcdops.ClusterController.Observe.{observe, observe-self, moved, ensure_member-cases}
use etcdops.ClusterController.Phase.{has_failed, observe-length}
use etcdops.ClusterController.Repair.{
  Candidate, consider, mark_broken, minor_failed_timeout, find_failed, repair_candidate,
  repair_members,
}
use etcdops.ClusterController.Repair.Choice.{
  consider_all, NoneBefore, consider_all-count, consider_all-Choice, consider_all-NoneBefore,
}

-- A member that is neither being created nor already marked for repair
abbrev pub IsCalm : Member → Type 0
IsCalm m = (is_creating m ≡ false) × (m.spec.broken ≡ false)

module _ (V : Env) where
  -- The loop reads members, and stops after at most `n` of them.
  pub find_failed_reads :
      (n i : ℕ) (k : Candidate) (f : Frame V.World Cluster)
      → (j : ℕ) × (j ≤ n) × ((find_failed V n i k f).1 ≡ (observe V j i f).1)
  unfolding find_failed observe
  find_failed_reads zero i k f = (0, omega arith, refl)
  find_failed_reads (suc n) i k f = elim (ensure_member-cases V i f) [
    | inr (e, w, p) ↦ (1, omega arith, ground arith)
    | inl (m, w, p) ↦ elim (Bool-cases (is_creating m || m.spec.broken)) [
      | inl stop ↦ (1, omega arith, ground arith)
      | inr on ↦
          let (j, le, same) = find_failed_reads n (suc i) (consider m k) (moved V f w) in
          (suc j, omega arith, ground arith)
    ]
  ]

  -- If the loop runs to its end, it has read every member, each of them calm.
  pub find_failed-All :
      (n i : ℕ) (k : Candidate) (f : Frame V.World Cluster) {k' : Candidate}
      → (find_failed V n i k f).0 ≡ done (some k')
      → (ms : List Member) × (observe V n i f ≡ (done ms, (find_failed V n i k f).1))
        × All IsCalm ms
        × (k' ≡ consider_all ms k)
  unfolding find_failed observe consider_all
  find_failed-All zero i k f h = ([], refl, tt, ground arith)
  find_failed-All (suc n) i k f {k'} h = elim (ensure_member-cases V i f) [
    | inr (e, w, p) ↦ absurd (ground arith)
    | inl (m, w, p) ↦ elim (Bool-cases (is_creating m || m.spec.broken)) [
      | inl stop ↦ absurd (ground arith)
      | inr on ↦
          let (ms, read, calm, same) =
            find_failed-All n (suc i) (consider m k) (moved V f w) {k' = k'} (ground arith) in
          (m ∷ ms, ground arith, (ground arith, calm), same)
    ]
  ]

  -- The frame after the clock has been read
  abbrev pub clock_read : Frame V.World Cluster → Frame V.World Cluster
  clock_read f = moved V f (V.now f.world).1

  -- Five minutes before `RepairMembers` read the clock
  abbrev pub deadline : Frame V.World Cluster → Time
  deadline f = (V.now f.world).0 -ℤ minor_failed_timeout

  abbrev pub first_candidate : Frame V.World Cluster → Candidate
  first_candidate f = record {
    failed_member = none;
    failed_count = 0;
    min_failed_time = deadline f;
  }

  -- From `f` to `g` the pass has read all members and then marked one as broken.
  pub record Marks (f g : Frame V.World Cluster) : Type 0 where
    pub members : List Member
    pub read : Frame V.World Cluster
    pub chosen : Member
    pub all_read : observe V (pos_part f.self.spec.size) 0 (clock_read f) ≡ (done members, read)
    pub marked : g ≡ moved V read (V.members.update (mark_broken chosen) read.world).1
    pub among : Memᴰ chosen members
    pub failed : has_failed chosen ≡ true
    pub overdue : chosen.status.failed_time <ℤ deadline f
    pub earliest : NoneBefore chosen.status.failed_time members
    pub calm : All IsCalm members
    pub minority : pos (count has_failed members * 2) ≤ℤ f.self.spec.size

  pub repair_candidate-cases :
      (k : Candidate) (f : Frame V.World Cluster)
      → ((repair_candidate V k f).1 ≡ f)
        ⊎ ((m : Member) × (k.failed_member ≡ some m)
            × (ltb_ℤ f.self.spec.size (to_int (k.failed_count * 2)) ≡ false)
            × ((repair_candidate V k f).1 ≡ moved V f (V.members.update (mark_broken m) f.world).1))
  unfolding repair_candidate
  repair_candidate-cases k f = elim (Option-cases (k.failed_member)) [
    | inl nobody ↦ inl (ground arith)
    | inr (m, chosen) ↦
        elim (Bool-cases
          (ltb_ℤ f.self.spec.size (to_int (k.failed_count * 2)) || k.failed_count == 0)) [
            | inl stop ↦ inl (ground arith)
            | inr on ↦ inr (m, chosen, ground arith, ground arith)
          ]
  ]

  minority_lem :
      (ms : List Member) (size : ℤ)
      → length ms ≡ pos_part size
      → pos_part size * 2 < half_word
      → ltb_ℤ size (to_int (count has_failed ms * 2)) ≡ false
      → pos (count has_failed ms * 2) ≤ℤ size
  minority_lem ms size all small h =
      let fits : count has_failed ms * 2 < half_word =
        omega (arith, count-le-length has_failed ms) in
      let h' : ltb_ℤ size (pos (count has_failed ms * 2)) ≡ false =
        rw (to_int_small (count has_failed ms * 2) fits) at h in
      ground arith

  -- What the loop chose, and the member marked, make a repair.
  pub mark :
      (f read g : Frame V.World Cluster) (ms : List Member) (m : Member)
      → pos_part f.self.spec.size * 2 < half_word
      → observe V (pos_part f.self.spec.size) 0 (clock_read f) ≡ (done ms, read)
      → All IsCalm ms
      → (consider_all ms (first_candidate f)).failed_member ≡ some m
      → ltb_ℤ read.self.spec.size (to_int ((consider_all ms (first_candidate f)).failed_count * 2))
        ≡ false
      → g ≡ moved V read (V.members.update (mark_broken m) read.world).1
      → Marks f g
  mark f read g ms m small all_read calm chosen quorum marked =
      let k = consider_all ms (first_candidate f) in
      let n = pos_part f.self.spec.size in
      let kept : read.self ≡ f.self = ground (arith, observe-self V n 0 (clock_read f)) in
      let counted : k.failed_count ≡ count has_failed ms =
        omega (arith, consider_all-count ms (first_candidate f)) in
      let quorum' : ltb_ℤ f.self.spec.size (to_int (count has_failed ms * 2)) ≡ false =
        rw (kept, counted) at quorum in
      elim (consider_all-Choice ms (first_candidate f)) [
        | inl (nobody, _) ↦ absurd (ground arith)
        | inr (x, took, among, failed, at, before) ↦
            let same : x ≡ m = cc in
            record {
              members = ms;
              read = read;
              chosen = m;
              all_read = all_read;
              marked = marked;
              among = rw (← same) among;
              failed = rw (← same) failed;
              overdue = rw (← same, at) before;
              earliest = rw (← same, at) (consider_all-NoneBefore ms (first_candidate f));
              calm = calm;
              minority =
                  minority_lem ms f.self.spec.size
                    (observe-length V n 0 (clock_read f) (ap (λ p. p.0) all_read)) small quorum';
            }
      ]

  -- `RepairMembers` only reads members, in order and at most all of them, or it marks one: a member
  -- that it has read, that has failed, did so more than five minutes before, and did so first of
  -- all. Then none of the members is being created or marked already, and at most half of them have
  -- failed. Twice the size has to fit into an `int`.
  pub repair_members_safe :
      (f : Frame V.World Cluster)
      → pos_part f.self.spec.size * 2 < half_word
      → ((j : ℕ) × (j ≤ pos_part f.self.spec.size)
          × ((repair_members V f).1 ≡ (observe V j 0 (clock_read f)).1))
        ⊎ Marks f (repair_members V f).1
  unfolding repair_members
  repair_members_safe f small =
      let n = pos_part f.self.spec.size in
      let run = find_failed V n 0 (first_candidate f) (clock_read f) in
      let (j, le, same) = find_failed_reads n 0 (first_candidate f) (clock_read f) in
      elim (Outcome-cases (run.0)) [
        | inr crash ↦ inl (j, le, ground arith)
        | inl (none, stop) ↦ inl (j, le, ground arith)
        | inl (some k, end) ↦ elim (repair_candidate-cases k run.1) [
          | inl kept ↦ inl (j, le, ground arith)
          | inr (m, chosen, quorum, wrote) ↦
              let (ms, read, calm, met) =
                find_failed-All n 0 (first_candidate f) (clock_read f) {k' = k} end in
              inr (
                mark f run.1 (repair_members V f).1 ms m small read calm (rw met at chosen)
                  (rw met at quorum) (ground arith))
        ]
      ]

-- ===== src/ClusterController/Phase.antt =====
-- What `EnsureMembers` makes of the members that it reads (controllers/cluster_controller.go).
use etcdops.Base.{
  ℕ, zero, suc, ◌+◌, ◌*◌, ◌≤◌, ◌<◌, Bool, false, not, ◌||◌, List, [], ◌∷◌, none, ◌≡◌, ◌↔◌, inl, inr,
  length, count, arith,
}
use etcdops.Base.Int.{ℤ, pos, negsuc, pos_part, to_int_small, half_word}
use etcdops.Kube.{Outcome, done, panic, Frame, pure, put_self, ◌>>=◌, ◌>>◌}
use etcdops.Types.Cluster.{Cluster, ClusterPhase}
use etcdops.Kube.Laws.{Outcome-cases}
use etcdops.Types.Member.{Member, is_creating, is_failed}
use etcdops.Env.{Env, IsLawful, Ret, proceed}
use etcdops.ClusterController.Members.{
  cluster_phase, Tally, no_tally, tally_member, tally_members, ensure_members,
}
use etcdops.ClusterController.Observe.{observe, moved, ensure_member-cases}

abbrev pub has_failed : Member → Bool
has_failed m = is_failed m.status.phase

-- Some member's certificates expire, or are being replaced.
unfoldable pub any_expires : List Member → Bool
any_expires [] = false
any_expires (m ∷ ms) = (m.status.certificate_expires || m.spec.certificate_update) || any_expires ms

-- The cluster's status after a pass that has read `ms`
unfoldable pub assess : Cluster → List Member → Cluster
assess c ms = record c {
  status = record (c.status) {
    phase = cluster_phase (count has_failed ms) (count is_creating ms) c.spec.size;
    certificate_expires = any_expires ms;
  };
}

module _ (V : Env) (L : IsLawful V) where
  -- The variables of the loop after the members `ms`
  abbrev tallied : Tally V → List Member → Tally V
  tallied t ms = record {
    errs = none;
    failed_count = t.failed_count + count has_failed ms;
    creating_count = t.creating_count + count is_creating ms;
    certificate_expires = t.certificate_expires || any_expires ms;
  }

  abbrev then_tally :
      Tally V
      → Outcome (List Member) × Frame V.World Cluster
      → Outcome (Tally V) × Frame V.World Cluster
  then_tally t (done ms, g) = (done (tallied t ms), g)
  then_tally t (panic, g) = (panic, g)

  tally_members-observe :
      (n i : ℕ) (t : Tally V) (f : Frame V.World Cluster)
      → t.errs ≡ none
      → tally_members V n i t f ≡ then_tally t (observe V n i f)
  unfolding tally_members observe any_expires is_creating
  tally_members-observe zero i t f h = ground arith
  tally_members-observe (suc n) i t f h = elim (ensure_member-cases V i f) [
    | inr (e, w, p) ↦ ground arith
    | inl (m, w, p) ↦ ground (
      arith,
      L.append_nil,
      tally_members-observe n (suc i) (tally_member V none m t) (moved V f w),
    )
  ]

  -- `EnsureMembers` reads every member once, in order, and then sets the phase and the flag for
  -- certificates from what it read, whatever the world answers; it panics where the reading does,
  -- and otherwise returns the empty result with the nil error.
  pub ensure_members_lem :
      (f : Frame V.World Cluster)
      → ensure_members V f
        ≡ (do
          ms ← observe V (pos_part f.self.spec.size) 0
          put_self (assess f.self ms)
          pure (proceed V))
            f
  unfolding ensure_members assess
  ensure_members_lem f =
      ground (arith, tally_members-observe (pos_part f.self.spec.size) 0 (no_tally V) f)

abbrev pub is_healthy : Member → Bool
is_healthy m = not (has_failed m || is_creating m)

-- Every member is failed, being created, or healthy, and only one of these.
count_partition :
    (ms : List Member)
    → count has_failed ms + count is_creating ms + count is_healthy ms ≡ length ms
unfolding is_creating
count_partition [] = omega arith
count_partition (m ∷ ms) = ground (arith, count_partition ms)

-- The four phases, each with the members that bring it about
abbrev pub Quorum : ℕ → ℕ → ℕ → ClusterPhase → Type 0
Quorum failed creating healthy p =
    ((p ≡ ClusterPhase.running) ↔ ((failed ≡ 0) × (creating ≡ 0)))
    × ((p ≡ ClusterPhase.creating) ↔ ((failed ≡ 0) × (0 < creating)))
    × ((p ≡ ClusterPhase.minor_failure)
        ↔ ((0 < failed) × (failed + creating + healthy < healthy * 2)))
    × ((p ≡ ClusterPhase.failed) ↔ ((0 < failed) × (healthy * 2 ≤ failed + creating + healthy)))

cluster_phase-Quorum :
    (failed creating healthy : ℕ) (size : ℤ)
    → pos_part size ≡ failed + creating + healthy
    → pos_part size * 2 < half_word
    → Quorum failed creating healthy (cluster_phase failed creating size)
unfolding cluster_phase
cluster_phase-Quorum failed creating healthy (pos n) h small =
    rw (to_int_small ((failed + creating) * 2) (omega arith)) (ground arith)
cluster_phase-Quorum failed creating healthy (negsuc n) h small = ground arith

module _ (V : Env) where
  -- A pass that ends has read as many members as it had rounds.
  pub observe-length :
      (n i : ℕ) (f : Frame V.World Cluster) {ms : List Member}
      → (observe V n i f).0 ≡ done ms
      → length ms ≡ n
  unfolding observe
  observe-length zero i f h = ground arith
  observe-length (suc n) i f {ms} h = elim (ensure_member-cases V i f) [
    | inr (e, w, p) ↦ ground arith
    | inl (m, w, p) ↦ elim (Outcome-cases (observe V n (suc i) (moved V f w)).0) [
      | inr q ↦ ground arith
      | inl (rest, q) ↦ ground (arith, observe-length n (suc i) (moved V f w) q)
    ]
  ]

  -- If `EnsureMembers` ends, the members that it read decide the phase: Running if none has failed
  -- or is being created, Creating if some are being created and none has failed, MinorFailure if
  -- some have failed and more than half of all are healthy, Failed if some have failed and at most
  -- half are healthy, each exactly then. Twice the size has to fit into an `int`.
  pub ensure_members-Quorum :
      IsLawful V
      → (f : Frame V.World Cluster) {r : Ret V} → pos_part f.self.spec.size * 2 < half_word
      → (ensure_members V f).0 ≡ done r
      → (ms : List Member) × ((observe V (pos_part f.self.spec.size) 0 f).0 ≡ done ms)
        × Quorum
            (count has_failed ms)
            (count is_creating ms)
            (count is_healthy ms)
            (ensure_members V f).1.self.status.phase
  unfolding assess
  ensure_members-Quorum L f small h =
      elim (Outcome-cases (observe V (pos_part f.self.spec.size) 0 f).0) [
        | inr q ↦ absurd (ground (arith, ensure_members_lem V L f))
        | inl (ms, q) ↦
            let assessed : (ensure_members V f).1.self ≡ assess f.self ms =
              ground (arith, ensure_members_lem V L f) in
            (
              ms,
              q,
              rw assessed (
                  cluster_phase-Quorum _ _ (count is_healthy ms) f.self.spec.size
                    (omega
                      (arith, observe-length (pos_part f.self.spec.size) 0 f q, count_partition ms))
                    small),
            )
      ]

-- ===== src/ClusterController/Repair/Choice.antt =====
-- Which member the loop of `RepairMembers` chooses (controllers/cluster_controller.go).
use mathlib.Core.List.{Memᴰ}
use etcdops.Base.{
  ◌+◌, true, List, [], ◌∷◌, some, ◌≡◌, refl, sym, ◌∙◌, ◌⊎◌, inl, inr, count, All, All-mem, ap,
  Bool-cases, arith,
}
use etcdops.Base.Int.{pos_part, neg_part, ltb_ℤ, ◌≤ℤ◌, ◌<ℤ◌}
use etcdops.Kube.{Time}
use etcdops.Types.Member.{Member}
use etcdops.ClusterController.Phase.{has_failed}
use etcdops.ClusterController.Repair.{Candidate, consider}

-- The loop over a list of members that have been read
unfoldable pub consider_all : List Member → Candidate → Candidate
consider_all [] k = k
consider_all (m ∷ ms) k = consider_all ms (consider m k)

-- No member that has failed did so before `t`.
abbrev pub NoneBefore : Time → List Member → Type 0
NoneBefore t = All (λ x. has_failed x ≡ true → t ≤ℤ x.status.failed_time)

-- What the loop makes of the candidate `k`
abbrev pub Choice : List Member → Candidate → Candidate → Type 0
Choice ms k k' =
    ((k'.failed_member ≡ k.failed_member) × (k'.min_failed_time ≡ k.min_failed_time))
    ⊎ ((m : Member) × (k'.failed_member ≡ some m)
        × Memᴰ m ms
        × (has_failed m ≡ true)
        × (m.status.failed_time ≡ k'.min_failed_time)
        × (k'.min_failed_time <ℤ k.min_failed_time))

consider-count :
    (m : Member) (ms : List Member) (k : Candidate)
    → (consider m k).failed_count + count has_failed ms ≡ k.failed_count + count has_failed (m ∷ ms)
unfolding consider
consider-count m ms k = ground arith

pub consider_all-count :
    (ms : List Member) (k : Candidate)
    → (consider_all ms k).failed_count ≡ k.failed_count + count has_failed ms
unfolding consider_all
consider_all-count [] k = omega arith
consider_all-count (m ∷ ms) k =
    omega (arith, consider_all-count ms (consider m k), consider-count m ms k)

consider-min :
    (m : Member) (k : Candidate)
    → ((consider m k).min_failed_time ≤ℤ k.min_failed_time)
      × (has_failed m ≡ true → (consider m k).min_failed_time ≤ℤ m.status.failed_time)
unfolding consider
consider-min m k = ground arith

consider_all-le :
    (ms : List Member) (k : Candidate) → (consider_all ms k).min_failed_time ≤ℤ k.min_failed_time
unfolding consider_all
consider_all-le [] k = omega arith
consider_all-le (m ∷ ms) k = omega (arith, consider_all-le ms (consider m k), consider-min m k)

pub consider_all-NoneBefore :
    (ms : List Member) (k : Candidate) → NoneBefore (consider_all ms k).min_failed_time ms
unfolding consider_all
consider_all-NoneBefore [] k = tt
consider_all-NoneBefore (m ∷ ms) k = (
  λ h. omega (arith, consider_all-le ms (consider m k), (consider-min m k).1 h),
  consider_all-NoneBefore ms (consider m k),
)

-- One round keeps the candidate or takes the member.
consider-cases :
    (m : Member) (k : Candidate)
    → (((consider m k).failed_member ≡ k.failed_member)
        × ((consider m k).min_failed_time ≡ k.min_failed_time))
      ⊎ (((consider m k).failed_member ≡ some m)
          × (has_failed m ≡ true)
          × (m.status.failed_time ≡ (consider m k).min_failed_time)
          × ((consider m k).min_failed_time <ℤ k.min_failed_time))
unfolding consider
consider-cases m k = elim (Bool-cases (has_failed m)) [
  | inr spared ↦ inl (ground arith, ground arith)
  | inl failed ↦ elim (Bool-cases (ltb_ℤ m.status.failed_time k.min_failed_time)) [
    | inr late ↦ inl (ground arith, ground arith)
    | inl early ↦ inr (ground arith, failed, ground arith, ground arith)
  ]
]

pub consider_all-Choice : (ms : List Member) (k : Candidate) → Choice ms k (consider_all ms k)
unfolding consider_all
consider_all-Choice [] k = inl (refl, refl)
consider_all-Choice (m ∷ ms) k = elim (consider_all-Choice ms (consider m k)) [
  | inr (x, chosen, among, failed, at, before) ↦
      inr (x, chosen, Memᴰ.tail among, failed, at, omega (arith, (consider-min m k).0))
  | inl (kept, same) ↦ elim (consider-cases m k) [
    | inl (kept', same') ↦ inl (kept ∙ kept', same ∙ same')
    | inr (taken, failed, at, before) ↦
        inr (m, kept ∙ taken, Memᴰ.head refl, failed, at ∙ sym same, rw same before)
  ]
]

-- A member that failed before the candidate's time is chosen, or one that failed earlier.
pub consider_all_chooses :
    (ms : List Member) (k : Candidate) {x : Member}
    → Memᴰ x ms
    → has_failed x ≡ true
    → x.status.failed_time <ℤ k.min_failed_time
    → (m : Member) × ((consider_all ms k).failed_member ≡ some m)
consider_all_chooses ms k among failed before = elim (consider_all-Choice ms k) [
  | inr (m, chosen, _, _, _, _) ↦ (m, chosen)
  | inl (kept, same) ↦
      let t = (consider_all ms k).min_failed_time in
      let bound =
        All-mem (λ y. has_failed y ≡ true → t ≤ℤ y.status.failed_time) among
          (consider_all-NoneBefore ms k) failed in
      absurd (omega (arith, ap pos_part same, ap neg_part same))
]

-- ===== src/ClusterController/Repair.antt =====
-- `RepairMembers`: the member that failed first, if that was long enough ago, is marked as broken.
pub mod Alone
pub mod Choice
pub mod Effects
pub mod Liveness
pub mod Safety
use etcdops.Base.{
  ℕ, zero, suc, ◌+◌, ◌*◌, Bool, true, false, not, ◌||◌, Option, none, some, ◌==◌, if◌then◌else◌,
}
use etcdops.Base.Int.{ℤ, pos, pos_part, ltb_ℤ, ◌-ℤ◌, to_int}
use etcdops.Kube.{
  Answer, ok, err, Action, Time, Duration, no_result, pure, call, get_self, deref, ◌>>=◌,
}
use etcdops.Types.Cluster.{Cluster}
use etcdops.Types.Member.{Member, is_creating, is_failed}
use etcdops.Env.{Env, Ret, proceed, failing}
use etcdops.ClusterController.Members.{ensure_member}
use etcdops.ClusterController.Update.{requeueing, answer_error}

-- Five minutes
abbrev pub minor_failed_timeout : Duration
minor_failed_timeout = pos 300000000000

-- The variables of the loop
pub record Candidate : Type 0 where
  pub failed_member : Option Member
  pub failed_count : ℕ
  pub min_failed_time : Time

-- A member that has failed is counted, and chosen if it failed before the earliest seen so far.
unfoldable pub consider : Member → Candidate → Candidate
consider m k =
    if not (is_failed m.status.phase)
    then k
    else if ltb_ℤ m.status.failed_time k.min_failed_time
    then record {
      failed_member = some m;
      failed_count = k.failed_count + 1;
      min_failed_time = m.status.failed_time;
    }
    else record k { failed_count = k.failed_count + 1 }

abbrev pub mark_broken : Member → Member
mark_broken m = record m { spec = record (m.spec) { broken = true } }

module _ (V : Env) where
  -- The loop from index `i`, with `n` rounds left; `none` is the return from inside it. The errors
  -- that the loop collects are never read, and stay out.
  unfoldable pub find_failed : ℕ → ℕ → Candidate → Action V.World Cluster (Option Candidate)
  unfolding consider
  find_failed zero i k = pure (some k)
  find_failed (suc n) i k = do
    (found, e) ← ensure_member V i
    m ← deref found
    if is_creating m || m.spec.broken then pure none else find_failed n (suc i) (consider m k)

  -- Behind the loop
  unfoldable pub repair_candidate : Candidate → Action V.World Cluster (Ret V)
  repair_candidate k = do
    c ← get_self
    elim (k.failed_member) [
      | none ↦ pure (requeueing V none)
      | some m ↦
          if ltb_ℤ c.spec.size (to_int (k.failed_count * 2)) || k.failed_count == 0
          then pure (proceed V)
          else do a ← call (V.members.update (mark_broken m)); pure (failing V (answer_error V a))
    ]

  unfoldable pub repair_members : Action V.World Cluster (Ret V)
  unfolding find_failed repair_candidate ◌-ℤ◌
  repair_members = do
    c ← get_self
    now ← call V.now
    k ← find_failed (pos_part c.spec.size) 0 (record {
      failed_member = none;
      failed_count = 0;
      min_failed_time = now -ℤ minor_failed_timeout;
    })
    elim k [ none ↦ pure (requeueing V none) | some k ↦ repair_candidate k ]

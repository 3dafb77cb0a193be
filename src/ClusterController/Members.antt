-- ===== src/ClusterController/Members.antt =====
-- `EnsureMember` and `EnsureMembers`: one pass over the members that sets the cluster's phase.
use etcdops.Base.{
  ℕ, zero, suc, ◌+◌, ◌*◌, Bool, false, ◌&&◌, ◌||◌, Option, none, some, ltb, ◌==◌, if◌then◌else◌,
}
use etcdops.Base.Int.{ℤ, pos_part, ltb_ℤ, to_int}
use etcdops.Kube.{ok, err, Action, pure, call, get_self, put_self, deref, ◌>>=◌, ◌>>◌}
use etcdops.Types.Cluster.{Cluster, ClusterPhase, get_member}
use etcdops.Types.Member.{Member, is_creating, is_failed}
use etcdops.Env.{Env, OwnerKind, Ret, failing}
use etcdops.Controller.{skip_update}

-- The phase from the numbers of members that have failed and that are being created. Each is at
-- most the size, so only the product can wrap around.
unfoldable pub cluster_phase : ℕ → ℕ → ℤ → ClusterPhase
cluster_phase failed creating size =
    if failed == 0 && creating == 0
    then ClusterPhase.running
    else if failed == 0 && ltb 0 creating
    then ClusterPhase.creating
    else if ltb_ℤ (to_int ((failed + creating) * 2)) size
    then ClusterPhase.minor_failure
    else ClusterPhase.failed

module _ (V : Env) where
  -- `EnsureMember` returns a pointer, which is nil beside an error.
  unfoldable pub ensure_member : ℕ → Action V.World Cluster (Option Member × Option V.Error)
  ensure_member num = do
    c ← get_self
    let m = get_member c num
    elim (V.set_controller_reference OwnerKind.cluster c.metadata m.metadata) [
      | err e ↦ pure (none, some e)
      | ok meta ↦ do
        a ← call (V.members.create_or_update (record m { metadata = meta }) skip_update)
        pure (elim a [ err e ↦ (none, some e) | ok (found, _) ↦ (some found, none) ])
    ]

  -- The variables of the loop in `EnsureMembers`
  pub record Tally : Type 0 where
    pub errs : Option V.Error
    pub failed_count : ℕ
    pub creating_count : ℕ
    pub certificate_expires : Bool

  abbrev pub no_tally : Tally
  no_tally = record {
    errs = none;
    failed_count = 0;
    creating_count = 0;
    certificate_expires = false;
  }

  unfoldable pub tally_member : Option V.Error → Member → Tally → Tally
  tally_member e m t = record {
    errs = V.append_error t.errs e;
    failed_count = if is_failed m.status.phase then t.failed_count + 1 else t.failed_count;
    creating_count =
        if is_failed m.status.phase
        then t.creating_count
        else if is_creating m
        then t.creating_count + 1
        else t.creating_count;
    certificate_expires =
        t.certificate_expires || m.status.certificate_expires || m.spec.certificate_update;
  }

  -- The loop from index `i`, with `n` rounds left. The pointer is read although it may be nil.
  unfoldable pub tally_members : ℕ → ℕ → Tally → Action V.World Cluster Tally
  unfolding tally_member
  tally_members zero i t = pure t
  tally_members (suc n) i t = do
    (found, e) ← ensure_member i
    m ← deref found
    tally_members n (suc i) (tally_member (e) m t)

  unfoldable pub ensure_members : Action V.World Cluster (Ret V)
  unfolding tally_members
  ensure_members = do
    c ← get_self
    t ← tally_members (pos_part c.spec.size) 0 no_tally
    put_self (record c {
      status = record (c.status) {
        phase = cluster_phase t.failed_count t.creating_count c.spec.size;
        certificate_expires = t.certificate_expires;
      };
    })
    pure (failing V t.errs)

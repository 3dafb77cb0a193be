-- ===== src/ClusterController/Update.antt =====
-- `UpdateMembers`: a new version or new certificates are rolled out one member at a time.
pub mod Asking
pub mod Effects
pub mod Orderly
pub mod Calm
pub mod Pass
pub mod Progress
pub mod Rolling
use etcdops.Base.{
  ℕ, zero, suc, Bool, true, false, not, ◌||◌, Option, none, some, str_eq, if◌then◌else◌,
}
use etcdops.Base.Int.{pos_part}
use etcdops.Kube.{Answer, ok, err, Action, pure, call, get_self, put_self, deref, ◌>>=◌, ◌>>◌}
use etcdops.Types.Cluster.{Cluster, ClusterPhase}
use etcdops.Types.Member.{Member, is_creating, is_updating}
use etcdops.Env.{Env, Ret, failing}
use etcdops.Controller.{requeue}
use etcdops.ClusterController.Members.{ensure_member}

module _ (V : Env) where
  -- `return Requeue(), err`
  abbrev pub requeueing : Option V.Error → Ret V
  requeueing e = record { result = requeue; error = e }

  abbrev pub answer_error : {A : Type 0} → Answer V.Error A → Option V.Error
  answer_error (ok _) = none
  answer_error (err e) = some e

  -- `cluster.Status.Phase = phase`
  abbrev pub set_phase : ClusterPhase → Action V.World Cluster (Unit {0})
  set_phase p = do c ← get_self; put_self (record c { status = record (c.status) { phase = p } })

  unfoldable pub set_member_version : Cluster → Member → Action V.World Cluster (Ret V)
  set_member_version c m = do
    set_phase ClusterPhase.updating
    a ← call (V.members.update (record m { spec = record (m.spec) { version = c.spec.version } }))
    pure (requeueing (answer_error a))

  -- The end of a round: on to the next member, `next`, if this one runs the version
  unfoldable pub check_version :
      Cluster → Member → Action V.World Cluster (Ret V) → Action V.World Cluster (Ret V)
  check_version c m next =
      if not (str_eq c.spec.version m.status.version) then pure (requeueing none) else next

  -- The member asks for new certificates exactly if its own have expired. The update writes the
  -- server's object over the caller's, and the rest of the round reads that.
  unfoldable pub set_certificate_update :
      Cluster → Member → Action V.World Cluster (Ret V) → Action V.World Cluster (Ret V)
  unfolding check_version
  set_certificate_update c m next = do
    a ← call (
        V.members.update (record m {
          spec = record (m.spec) { certificate_update = m.status.certificate_expires };
        }))
    elim a [
      | err e ↦ pure (failing V (some e))
      | ok m' ↦
          if m'.spec.certificate_update
          then (do set_phase ClusterPhase.updating; pure (requeueing none))
          else check_version c m' next
    ]

  -- One round of the loop
  unfoldable pub update_member :
      Cluster → Member → Action V.World Cluster (Ret V) → Action V.World Cluster (Ret V)
  unfolding set_member_version set_certificate_update check_version
  update_member c m next =
      if is_creating m || is_updating m.status.phase
      then pure (requeueing none)
      else if not (str_eq c.spec.version m.spec.version)
      then set_member_version c m
      else if c.status.certificate_expires || m.spec.certificate_update
      then set_certificate_update c m next
      else check_version c m next

  -- Behind the loop
  unfoldable pub finish_update : Option V.Error → Action V.World Cluster (Ret V)
  finish_update (some e) = pure (failing V (some e))
  finish_update none = do
    c ← get_self
    put_self (record c {
      status = record (c.status) { phase = ClusterPhase.running; certificate_expires = false };
    })
    pure (failing V none)

  -- The loop from index `i`, with `n` rounds left. No round that goes on changes the cluster.
  unfoldable pub update_from : ℕ → ℕ → Option V.Error → Action V.World Cluster (Ret V)
  unfolding update_member finish_update
  update_from zero i errs = finish_update errs
  update_from (suc n) i errs = do
    (found, e) ← ensure_member V i
    m ← deref found
    c ← get_self
    update_member c m (update_from n (suc i) (V.append_error errs e))

  unfoldable pub update_members : Action V.World Cluster (Ret V)
  unfolding update_from
  update_members = do c ← get_self; update_from (pos_part c.spec.size) 0 none

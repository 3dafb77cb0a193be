-- ===== src/MemberController/Pods.antt =====
-- `EnsurePod`, which reads a member's phase off its pod, and `DeletePod` and `DeletePVC`.
pub mod Phase
use etcdops.Base.{Bool, not, ◌&&◌, List, [], ◌∷◌, Option, some, none, length, ◌==◌, if◌then◌else◌}
use etcdops.Kube.{ok, err, created, Action, Pod, pure, call, get_self, put_self, ◌>>=◌, ◌>>◌}
use etcdops.Types.Member.{Member, MemberPhase, is_running, is_failed, set_failed}
use etcdops.Types.Member.Pod.{get_pod}
use etcdops.Types.Member.Objects.{get_pvc}
use etcdops.Env.{Env, OwnerKind, Ret, proceed, failing}
use etcdops.Controller.{skip_update, requeue}

-- The loop over the container statuses
unfoldable pub all_ready : List Bool → Bool → Bool
all_ready [] ready = ready
all_ready (r ∷ statuses) ready = all_ready statuses (ready && r)

-- As many statuses as containers, each of them ready
unfoldable pub is_ready : Pod → Bool
unfolding all_ready
is_ready pod =
    all_ready pod.container_statuses (length pod.container_statuses == length pod.containers)

module _ (V : Env) where
  -- `member.Status.Phase = phase`
  abbrev pub set_member_phase : MemberPhase → Action V.World Member (Unit {0})
  set_member_phase p = do
    m ← get_self
    put_self (record m { status = record (m.status) { phase = p } })

  -- `member.SetFailed()`
  unfoldable pub fail_member : Action V.World Member (Unit {0})
  unfolding set_failed
  fail_member = do
    m ← get_self
    if is_failed m.status.phase then pure tt else do now ← call V.now; put_self (set_failed now m)

  unfoldable pub fail_if_running : Action V.World Member (Unit {0})
  unfolding fail_member
  fail_if_running = do m ← get_self; if is_running m.status.phase then fail_member else pure tt

  -- Behind the creation of the pod
  unfoldable pub after_creation : Action V.World Member (Ret V)
  unfolding fail_if_running
  after_creation = do fail_if_running; pure (record { result = requeue; error = none })

  -- The phase of a member whose pod exists
  unfoldable pub observe_pod : Pod → Action V.World Member (Ret V)
  unfolding is_ready fail_member
  observe_pod pod = do
    m ← get_self
    if is_running m.status.phase && not (is_ready pod)
        then fail_member
        else if is_ready pod
        then put_self (record m {
          status = record (m.status) { phase = MemberPhase.running; version = m.spec.version };
        })
        else pure tt
    pure (proceed V)

  unfoldable pub ensure_pod : Action V.World Member (Ret V)
  unfolding after_creation observe_pod
  ensure_pod = do
    m ← get_self
    let pod = get_pod m
    elim (V.set_controller_reference OwnerKind.member m.metadata pod.metadata) [
      | err e ↦ pure (failing V (some e))
      | ok meta ↦ do
        a ← call (V.pods.create_or_update (record pod { metadata = meta }) skip_update)
        elim a [
          | err e ↦ pure (failing V (some e))
          | ok (_, created) ↦ after_creation
          | ok (found, _) ↦ observe_pod found
        ]
    ]

  -- How a deletion returns: an object that is not there needs no wait.
  abbrev pub after_delete : Option V.Error → Ret V
  after_delete none = record { result = requeue; error = none }
  after_delete (some e) = if V.is_not_found e then proceed V else failing V (some e)

  unfoldable pub delete_pod : Action V.World Member (Ret V)
  delete_pod = do m ← get_self; e ← call (V.pods.delete (get_pod m)); pure (after_delete e)

  unfoldable pub delete_pvc : Action V.World Member (Ret V)
  delete_pvc = do m ← get_self; e ← call (V.pvcs.delete (get_pvc m)); pure (after_delete e)

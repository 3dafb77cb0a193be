-- ===== src/MemberController/Ensure.antt =====
-- `EnsurePVC`: the volume claim of a member that is being created.
use etcdops.Base.{some, if◌then◌else◌}
use etcdops.Kube.{ok, err, Action, pure, call, get_self, ◌>>=◌}
use etcdops.Types.Member.{Member, is_creating}
use etcdops.Types.Member.Objects.{get_pvc}
use etcdops.Env.{Env, OwnerKind, Ret, proceed, failing}
use etcdops.Controller.{skip_update, requeue_if_created}

module _ (V : Env) where
  -- The part behind the early return
  unfoldable pub create_pvc : Action V.World Member (Ret V)
  create_pvc = do
    m ← get_self
    let pvc = get_pvc m
    elim (V.set_controller_reference OwnerKind.member m.metadata pvc.metadata) [
      | err e ↦ pure (failing V (some e))
      | ok meta ↦ do
        a ← call (V.pvcs.create_or_update (record pvc { metadata = meta }) skip_update)
        pure (requeue_if_created V a)
    ]

  unfoldable pub ensure_pvc : Action V.World Member (Ret V)
  unfolding create_pvc
  ensure_pvc = do m ← get_self; if is_creating m then create_pvc else pure (proceed V)

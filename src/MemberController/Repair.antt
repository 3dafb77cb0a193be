-- ===== src/MemberController/Repair.antt =====
-- `Repair`: a broken member loses its pod and its data, is entered into etcd's cluster anew, and is
-- then created again.
pub mod Confined
pub mod Order
pub mod Rests
use etcdops.Base.{false, List, [], ◌∷◌, Option, some, none, str_eq, if◌then◌else◌}
use etcdops.Kube.{ok, err, Action, zero_time, pure, call, get_self, put_self, ◌>>=◌, ◌>>◌}
use etcdops.Types.Member.{Member, MemberPhase, get_endpoints, get_advertise_peer_url}
use etcdops.Env.{Env, EtcdMember, Ret, proceed, failing, or_return}
use etcdops.MemberController.Pods.{delete_pod, delete_pvc}

module _ (V : Env) where
  -- `r.Status().Update` and `r.Update`, each with an error that is only logged
  unfoldable pub update_member_status : Action V.World Member (Unit {0})
  update_member_status = do
    m ← get_self
    a ← call (V.members.update_status m)
    elim a [ ok m' ↦ put_self m' | err e ↦ pure tt ]

  unfoldable pub update_member_object : Action V.World Member (Unit {0})
  update_member_object = do
    m ← get_self
    a ← call (V.members.update m)
    elim a [ ok m' ↦ put_self m' | err e ↦ pure tt ]

  -- The loop over etcd's member list
  unfoldable pub remove_named :
      V.etcd.Connection → List EtcdMember → Action V.World Member (Option V.Error)
  remove_named etcd [] = pure none
  remove_named etcd (x ∷ xs) = do
    m ← get_self
    let rest = remove_named etcd xs
    if str_eq x.name m.metadata.name
        then (do
          e ← call (V.etcd.member_remove etcd x.id)
          elim e [ some failure ↦ pure (some failure) | none ↦ rest ])
        else rest

  unfoldable pub add_member : V.etcd.Connection → Action V.World Member (Ret V)
  add_member etcd = do
    m ← get_self
    e ← call (V.etcd.member_add etcd (get_advertise_peer_url m ∷ []))
    pure (failing V e)

  -- With a connection
  unfoldable pub replace_entry : V.etcd.Connection → Action V.World Member (Ret V)
  unfolding remove_named add_member
  replace_entry etcd = do
    a ← call (V.etcd.member_list etcd)
    elim a [
      | err e ↦ pure (failing V (some e))
      | ok xs ↦ do
        e ← remove_named etcd xs
        elim e [ some failure ↦ pure (failing V (some failure)) | none ↦ add_member etcd ]
    ]

  unfoldable pub readd_to_cluster : Action V.World Member (Ret V)
  unfolding replace_entry
  readd_to_cluster = do
    m ← get_self
    a ← call (V.etcd.connect (get_endpoints m))
    elim a [ err e ↦ pure (failing V (some e)) | ok etcd ↦ replace_entry etcd ]

  -- What stands below the three steps
  unfoldable pub finish_repair : Action V.World Member (Ret V)
  unfolding update_member_status update_member_object
  finish_repair = do
    m ← get_self
    put_self (record m {
      status = record (m.status) { phase = MemberPhase.recreating; failed_time = zero_time };
    })
    update_member_status
    m' ← get_self
    put_self (record m' { spec = record (m'.spec) { broken = false } })
    update_member_object
    pure (proceed V)

  unfoldable pub repair : Action V.World Member (Ret V)
  unfolding finish_repair
  repair =
      or_return V (delete_pod V)
        (or_return V (delete_pvc V) (or_return V readd_to_cluster finish_repair))

-- ===== src/MemberController/Repair/Rests.antt =====
-- The steps of `Repair` (controllers/member_controller.go) before the member is written: they leave it,
-- and all that are stored, as they are.
use etcdops.Base.{List, [], ◌∷◌, ◌≡◌, refl, inl, inr, arith, Bool-cases, Option-cases, str_eq}
use etcdops.Kube.{NamespacedName}
use etcdops.Kube.Laws.{Answer-cases}
use etcdops.Types.Member.{get_endpoints, get_advertise_peer_url}
use etcdops.Types.Member.Objects.{get_pvc}
use etcdops.Env.{Env, EtcdMember}
use etcdops.Env.Store.{MemberStore, MemberCalls}
use etcdops.MemberController.Pods.{delete_pod, delete_pvc}
use etcdops.MemberController.Repair.{remove_named, add_member, replace_entry, readd_to_cluster}
use etcdops.MemberController.Advance.{Fr}

module _ (V : Env) (S : MemberStore V) (K : MemberCalls V S) where
  -- The member stays as it is, and so do all that are stored.
  abbrev pub Rests : Fr V → Fr V → Type 0
  Rests f g = (g.self ≡ f.self) × ((k : NamespacedName) → S.lookup k g.world ≡ S.lookup k f.world)

  pub delete_pod-Rests : (f : Fr V) → Rests f (delete_pod V f).1
  unfolding delete_pod
  delete_pod-Rests f = (refl, λ k. K.pods_delete_keeps _ f.world k)

  pub delete_pvc-Rests : (f : Fr V) → Rests f (delete_pvc V f).1
  unfolding delete_pvc
  delete_pvc-Rests f = (refl, λ k. K.pvcs_delete_keeps (get_pvc f.self) f.world k)

  remove_named-Rests :
      (etcd : V.etcd.Connection) (xs : List EtcdMember) (f : Fr V)
      → Rests f (remove_named V etcd xs f).1
  unfolding remove_named
  remove_named-Rests etcd [] f = (refl, λ k. refl)
  remove_named-Rests etcd (x ∷ xs) f = elim (Bool-cases (str_eq x.name f.self.metadata.name)) [
    | inr other ↦
        let (self, same) = remove_named-Rests etcd xs f in
        (ground (arith, self), λ k. ground (arith, same k))
    | inl named ↦
        let reply = V.etcd.member_remove etcd x.id f.world in
        let (self, same) = remove_named-Rests etcd xs (record f { world = reply.1 }) in
        elim (Option-cases reply.0) [
          | inl p ↦ (
            ground (arith, self),
            λ k. ground (arith, same k, K.etcd_remove_keeps etcd x.id f.world k),
          )
          | inr (e, p) ↦
              (ground arith, λ k. ground (arith, K.etcd_remove_keeps etcd x.id f.world k))
        ]
  ]

  replace_entry-Rests : (etcd : V.etcd.Connection) (f : Fr V) → Rests f (replace_entry V etcd f).1
  unfolding replace_entry add_member
  replace_entry-Rests etcd f =
      let reply = V.etcd.member_list etcd f.world in
      elim (Answer-cases reply.0) [
        | inr (e, p) ↦ (ground arith, λ k. ground (arith, K.etcd_list_keeps etcd f.world k))
        | inl (xs, p) ↦
            let g : Fr V = record f { world = reply.1 } in
            let u = remove_named V etcd xs g in
            let (self, same) = remove_named-Rests etcd xs g in
            let added = K.etcd_add_keeps etcd (get_advertise_peer_url u.1.self ∷ []) u.1.world in
            (
              ground (arith, self),
              λ k. ground (arith, same k, K.etcd_list_keeps etcd f.world k, added k),
            )
      ]

  pub readd_to_cluster-Rests : (f : Fr V) → Rests f (readd_to_cluster V f).1
  unfolding readd_to_cluster
  readd_to_cluster-Rests f =
      let reply = V.etcd.connect (get_endpoints f.self) f.world in
      elim (Answer-cases reply.0) [
        | inr (e, p) ↦ (
          ground arith,
          λ k. ground (arith, K.etcd_connect_keeps (get_endpoints f.self) f.world k),
        )
        | inl (etcd, p) ↦
            let (self, same) = replace_entry-Rests etcd (record f { world = reply.1 }) in
            (
              ground (arith, self),
              λ k. ground (arith, same k, K.etcd_connect_keeps (get_endpoints f.self) f.world k),
            )
      ]

-- ===== src/MemberController/Repair/Order.antt =====
-- The order in which `Repair` proceeds (controllers/member_controller.go).
use etcdops.Base.{
  String, true, false, List, [], ◌∷◌, ◌≡◌, refl, ◌⊎◌, inl, inr, arith, Bool-cases, Option,
  Option-cases, some, none, str_eq,
}
use etcdops.Kube.{ok, Outcome, done, Frame}
use etcdops.Kube.Laws.{Answer-cases}
use etcdops.Types.Member.{Member, get_endpoints, get_advertise_peer_url}
use etcdops.Types.Member.Objects.{get_pvc}
use etcdops.Types.Member.Pod.{get_pod}
use etcdops.Env.{Env, IsLawful, EtcdMember, Ret, failing, proceed, returns_early}
use etcdops.Controller.{requeue, is_zero-requeue}
use etcdops.MemberController.Pods.{delete_pod, delete_pvc, after_delete}
use etcdops.MemberController.Repair.{
  remove_named, add_member, replace_entry, readd_to_cluster, finish_repair, repair,
}

module _ (V : Env) where
  abbrev pub behind : Frame V.World Member → V.World → Frame V.World Member
  behind f w = record f { world = w }

  -- Every entry with the name is removed, and nothing else happens.
  pub data Removes (etcd : V.etcd.Connection) (name : String)
      : List EtcdMember → V.World → V.World → Type 0 where
    none_left : {w : V.World} → Removes etcd name [] w w
    passes :
        {x : EtcdMember} {xs : List EtcdMember} {w v : V.World}
        → str_eq x.name name ≡ false
        → Removes etcd name xs w v
        → Removes etcd name (x ∷ xs) w v
    removes :
        {x : EtcdMember} {xs : List EtcdMember} {w u v : V.World}
        → str_eq x.name name ≡ true
        → V.etcd.member_remove etcd x.id w ≡ (none, u)
        → Removes etcd name xs u v
        → Removes etcd name (x ∷ xs) w v

  -- The old entries of the member are removed from etcd's cluster, and it is added anew.
  pub record Readds (m : Member) (w : V.World) (v : V.World) : Type 0 where
    pub etcd : V.etcd.Connection
    pub entries : List EtcdMember
    pub behind_connect : V.World
    pub behind_list : V.World
    pub behind_removals : V.World
    pub connected : V.etcd.connect (get_endpoints m) w ≡ (ok etcd, behind_connect)
    pub listed : V.etcd.member_list etcd behind_connect ≡ (ok entries, behind_list)
    pub removed : Removes etcd m.metadata.name entries behind_list behind_removals
    pub added : V.etcd.member_add etcd (get_advertise_peer_url m ∷ []) behind_removals ≡ (none, v)

  -- A deletion finds nothing.
  abbrev pub Gone : Option V.Error × V.World → V.World → Type 0
  Gone reply w = (e : V.Error) × (reply ≡ (some e, w)) × (V.is_not_found e ≡ true)

  -- The pod and the volume claim are gone, and etcd's cluster has a new entry for the member.
  pub record Reenters (f : Frame V.World Member) (u : Outcome (Ret V) × Frame V.World Member)
      : Type 0 where
    pub behind_pod : V.World
    pub behind_pvc : V.World
    pub behind_etcd : V.World
    pub pod_gone : Gone (V.pods.delete (get_pod f.self) f.world) behind_pod
    pub pvc_gone : Gone (V.pvcs.delete (get_pvc f.self) behind_pod) behind_pvc
    pub readded : Readds f.self behind_pvc behind_etcd
    pub finished : u ≡ finish_repair V (behind f behind_etcd)

  -- The pass stops here, and the member stays as it is.
  abbrev pub Stays : Frame V.World Member → Outcome (Ret V) × Frame V.World Member → Type 0
  Stays f (o, g) = (r : Ret V) × (o ≡ done r) × (returns_early V r ≡ true) × (g.self ≡ f.self)

  remove_named-cases :
      (etcd : V.etcd.Connection) (xs : List EtcdMember) (f : Frame V.World Member)
      → ((e : V.Error) × (w : V.World) × (remove_named V etcd xs f ≡ (done (some e), behind f w)))
        ⊎ ((w : V.World) × (remove_named V etcd xs f ≡ (done none, behind f w))
            × Removes etcd f.self.metadata.name xs f.world w)
  unfolding remove_named
  remove_named-cases etcd [] f = inr (f.world, refl, none_left)
  remove_named-cases etcd (x ∷ xs) f = elim (Bool-cases (str_eq x.name f.self.metadata.name)) [
    | inr other ↦ elim (remove_named-cases etcd xs f) [
      | inl (e, w, q) ↦ inl (e, w, ground arith)
      | inr (w, q, rest) ↦ inr (w, ground arith, passes other rest)
    ]
    | inl same ↦
        let reply = V.etcd.member_remove etcd x.id f.world in
        elim (Option-cases reply.0) [
          | inr (e, p) ↦ inl (e, reply.1, ground arith)
          | inl p ↦ elim (remove_named-cases etcd xs (behind f reply.1)) [
            | inl (e, w, q) ↦ inl (e, w, ground arith)
            | inr (w, q, rest) ↦ inr (w, ground arith, removes same (ground arith) rest)
          ]
        ]
  ]

  readd_to_cluster-cases :
      (f : Frame V.World Member)
      → ((e : V.Error) × (w : V.World) × (readd_to_cluster V f
            ≡ (done (failing V (some e)), behind f w)))
        ⊎ ((w : V.World) × (readd_to_cluster V f ≡ (done (proceed V), behind f w))
            × Readds f.self f.world w)
  unfolding readd_to_cluster replace_entry add_member
  readd_to_cluster-cases f =
      let connection = V.etcd.connect (get_endpoints f.self) f.world in
      elim (Answer-cases connection.0) [
        | inr (e, p) ↦ inl (e, connection.1, ground arith)
        | inl (etcd, p) ↦
            let listing = V.etcd.member_list etcd connection.1 in
            elim (Answer-cases listing.0) [
              | inr (e, q) ↦ inl (e, listing.1, ground arith)
              | inl (xs, q) ↦ elim (remove_named-cases etcd xs (behind f listing.1)) [
                | inl (e, w, r) ↦ inl (e, w, ground arith)
                | inr (w, r, removed) ↦
                    let reply = V.etcd.member_add etcd (get_advertise_peer_url f.self ∷ []) w in
                    elim (Option-cases reply.0) [
                      | inr (e, s) ↦ inl (e, reply.1, ground arith)
                      | inl s ↦ inr (
                        reply.1,
                        ground arith,
                        record {
                          etcd = etcd;
                          entries = xs;
                          behind_connect = connection.1;
                          behind_list = listing.1;
                          behind_removals = w;
                          connected = ground arith;
                          listed = ground arith;
                          removed = removed;
                          added = ground arith;
                        },
                      )
                    ]
              ]
            ]
      ]

  after_delete-cases :
      IsLawful V
      → (reply : Option V.Error × V.World)
      → (returns_early V (after_delete V reply.0) ≡ true)
        ⊎ (Gone reply reply.1 × (after_delete V reply.0 ≡ proceed V))
  unfolding requeue
  after_delete-cases L (none, w) = inl (ground (arith, is_zero-requeue V L))
  after_delete-cases L (some e, w) = elim (Bool-cases (V.is_not_found e)) [
    | inl h ↦ inr ((e, refl, h), ground arith)
    | inr h ↦ inl (ground arith)
  ]

  -- `Repair` stops with a requeue or an error and leaves the member as it is, marked as broken, or
  -- it gets to the end: then the deletions of the pod and of the volume claim both found nothing
  -- left, and after that every entry with the member's name was removed from etcd's member list and
  -- the member was added anew, each without an error.
  pub repair-Reenters :
      IsLawful V → (f : Frame V.World Member) → Stays f (repair V f) ⊎ Reenters f (repair V f)
  unfolding repair delete_pod delete_pvc
  repair-Reenters L f =
      let pod = V.pods.delete (get_pod f.self) f.world in
      let pvc = V.pvcs.delete (get_pvc f.self) pod.1 in
      elim (after_delete-cases L pod) [
        | inl stops ↦ inl (after_delete V pod.0, ground arith, stops, ground arith)
        | inr (gone, on) ↦ elim (after_delete-cases L pvc) [
          | inl stops ↦ inl (
            after_delete V pvc.0,
            ground (arith, L.is_zero_no_result),
            stops,
            ground (arith, L.is_zero_no_result),
          )
          | inr (vanished, further) ↦ elim (readd_to_cluster-cases (behind f pvc.1)) [
            | inl (e, w, q) ↦ inl (
              failing V (some e),
              ground (arith, L.is_zero_no_result),
              refl,
              ground (arith, L.is_zero_no_result),
            )
            | inr (w, q, readded) ↦ inr (record {
              behind_pod = pod.1;
              behind_pvc = pvc.1;
              behind_etcd = w;
              pod_gone = gone;
              pvc_gone = vanished;
              readded = readded;
              finished = ground (arith, L.is_zero_no_result);
            })
          ]
        ]
      ]

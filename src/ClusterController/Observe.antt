-- ===== src/ClusterController/Observe.antt =====
-- One pass over the members, as every loop of the cluster controller makes it: what `EnsureMember`
-- can answer, and the list of the members that a pass has read.
use etcdops.Base.{ℕ, zero, suc, List, [], ◌∷◌, none, some, ◌≡◌, refl, ◌⊎◌, inl, inr, arith}
use etcdops.Kube.{done, Frame, Action, pure, deref, ◌>>=◌}
use etcdops.Kube.Laws.{Answer-cases}
use etcdops.Types.Cluster.{Cluster, get_member}
use etcdops.Types.Member.{Member}
use etcdops.Env.{Env, OwnerKind}
use etcdops.Controller.{skip_update}
use etcdops.ClusterController.Members.{ensure_member}

module _ (V : Env) where
  -- A frame in which only the world has moved on
  abbrev pub moved : Frame V.World Cluster → V.World → Frame V.World Cluster
  moved f w = record f { world = w }

  -- `EnsureMember` never panics and leaves the cluster alone: it answers with a member and the nil
  -- error, or with a nil pointer and an error.
  pub ensure_member-cases :
      (i : ℕ) (f : Frame V.World Cluster)
      → ((m : Member) × (w : V.World) × (ensure_member V i f ≡ (done (some m, none), moved f w)))
        ⊎ ((e : V.Error) × (w : V.World) × (ensure_member V i f ≡ (done (none, some e), moved f w)))
  unfolding ensure_member
  ensure_member-cases i f =
      elim (Answer-cases (
        V.set_controller_reference OwnerKind.cluster f.self.metadata
          (get_member f.self i).metadata)) [
            | inr (e, p) ↦ inr (e, f.world, rw p)
            | inl (meta, p) ↦
                let m : Member = record (get_member f.self i) { metadata = meta } in
                let reply = V.members.create_or_update m skip_update f.world in
                elim (Answer-cases (reply.0)) [
                  | inl (x, q) ↦ inl (x.0, reply.1, ground arith)
                  | inr (e, q) ↦ inr (e, reply.1, ground arith)
                ]
          ]

  -- The members that a pass reads, from index `i`, with `n` rounds left
  unfoldable pub observe : ℕ → ℕ → Action V.World Cluster (List Member)
  observe zero i = pure []
  observe (suc n) i = do
    (found, e) ← ensure_member V i
    m ← deref found
    ms ← observe n (suc i)
    pure (m ∷ ms)

  pub observe-self : (n i : ℕ) (f : Frame V.World Cluster) → (observe n i f).1.self ≡ f.self
  unfolding observe
  observe-self zero i f = refl
  observe-self (suc n) i f = elim (ensure_member-cases i f) [
    | inr (e, w, p) ↦ ground arith
    | inl (m, w, p) ↦ ground (arith, observe-self n (suc i) (moved f w))
  ]

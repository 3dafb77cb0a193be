-- ===== src/ClusterController/Writes.antt =====
-- What `Reconcile` as a whole writes to its cluster (controllers/cluster_controller.go).
use etcdops.Base.{String, none, some, ◌≡◌, refl, sym, ◌∙◌, ap, subst, ◌⊎◌, inl, inr, arith}
use etcdops.Kube.{ok, Frame, NamespacedName}
use etcdops.Types.Cluster.{Cluster}
use etcdops.Env.{Env, IsLawful}
use etcdops.Env.Clusters.{ClusterStore}
use etcdops.Env.Store.{key_of}
use etcdops.ClusterController.{
  repair_if_minor, update_if_due, set_version, start_phase, reconcile_body, reconcile,
}
use etcdops.ClusterController.Keeps.{SameSpec, reconcile_body-Keeps}
use etcdops.ClusterController.Untouched.{
  SameClusters, Quiet, or_return-Quiet, ensure_backup_schedule-Quiet, ensure_service-Quiet,
  ensure_ca-Quiet, ensure_members-Quiet, repair_members-Quiet, update_members-Quiet,
}

module _ (V : Env) where
  -- The frame behind the steps of a pass, in which the cluster `c` was fetched
  abbrev pub behind_steps : String → Cluster → V.World → Frame V.World Cluster
  behind_steps issuer c w = (reconcile_body V issuer (record { world = w; self = start_phase c })).1

module _ (V : Env) (S : ClusterStore V) where
  repair_if_minor-Quiet : Quiet V S (repair_if_minor V)
  unfolding repair_if_minor
  repair_if_minor-Quiet f k = ground (arith, repair_members-Quiet V S f k)

  update_if_due-Quiet : Quiet V S (update_if_due V)
  unfolding update_if_due
  update_if_due-Quiet f k = ground (arith, update_members-Quiet V S f k)

  set_version-Quiet : Quiet V S (set_version V)
  unfolding set_version
  set_version-Quiet f k = refl

  reconcile_body-Quiet : (issuer : String) → Quiet V S (reconcile_body V issuer)
  unfolding reconcile_body
  reconcile_body-Quiet issuer = or_return-Quiet V S _ _ (ensure_backup_schedule-Quiet V S) (
      or_return-Quiet V S _ _ (ensure_service-Quiet V S) (
        or_return-Quiet V S _ _ (ensure_ca-Quiet V S issuer) (
          or_return-Quiet V S _ _ (ensure_members-Quiet V S) (
            or_return-Quiet V S _ _ repair_if_minor-Quiet
              (or_return-Quiet V S _ _ update_if_due-Quiet set_version-Quiet)))))

  -- From `w` to `v` no cluster has changed but the one with the name `req`, and that one at most in
  -- its status, which is the given one.
  abbrev pub WritesStatus : NamespacedName → Cluster → V.World → V.World → Type 0
  WritesStatus req d w v =
      (k : NamespacedName)
      → (S.lookup k v ≡ S.lookup k w)
        ⊎ ((c : Cluster) × (req ≡ k)
            × (S.lookup k w ≡ some c)
            × (S.lookup k v ≡ some (record c { status = d.status })))

  -- If the API server behaves as documented and nobody else writes clusters during the pass
  -- (`ClusterStore`), a pass over a cluster that exists and is not being deleted leaves every stored cluster as it is until its end, on every path, errors and
  -- panics included. There it sends one status update, of an object with the metadata and the spec
  -- that were fetched. All that the pass can change of any stored cluster is the status of its own,
  -- which becomes the one that the steps have worked out.
  pub reconcile-WritesStatus :
      IsLawful V
      → (issuer : String) (req : NamespacedName) (w w' : V.World) (c : Cluster)
      → V.clusters.get req w ≡ (ok c, w')
      → c.metadata.deletion_timestamp ≡ none
      → SameClusters V S w (behind_steps V issuer c w').world
        × SameSpec c (behind_steps V issuer c w').self
        × ((reconcile V issuer req w).1
            ≡ (V.clusters.update_status
                (behind_steps V issuer c w').self
                (behind_steps V issuer c w').world).1)
        × WritesStatus req (behind_steps V issuer c w').self w (reconcile V issuer req w).1
  unfolding reconcile start_phase
  reconcile-WritesStatus L issuer req w w' c got alive =
      let f : Frame V.World Cluster = record { world = w'; self = start_phase c } in
      let g = behind_steps V issuer c w' in
      let fetched : SameClusters V S w w' =
        λ k. ap (λ u. S.lookup k u.1) (sym got) ∙ S.get_keeps req w k in
      let steps : SameClusters V S w g.world = λ k. reconcile_body-Quiet issuer f k ∙ fetched k in
      let same : SameSpec c g.self = ground (arith, reconcile_body-Keeps V L issuer f) in
      let own : key_of g.self.metadata ≡ req = ap key_of same.0 ∙ S.get_keyed (ap (λ u. u.0) got) in
      let goes : (reconcile V issuer req w).1 ≡ (V.clusters.update_status g.self g.world).1 =
        ground arith in
      (
        steps,
        same,
        goes,
        subst (WritesStatus req g.self w) (sym goes) (λ k. elim (S.status_writes g.self g.world k) [
          | inl kept ↦ inl (kept ∙ steps k)
          | inr (x, there, known, wrote) ↦ inr (x, sym own ∙ there, sym (steps k) ∙ known, wrote)
        ]),
      )

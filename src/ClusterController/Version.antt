-- ===== src/ClusterController/Version.antt =====
-- When `Reconcile` records a cluster's version as rolled out (controllers/cluster_controller.go).
use mathlib.Core.Path.{fun_ext}
use etcdops.Base.{
  ℕ, Bool, true, false, String, ◌≡◌, sym, ◌∙◌, ap, ◌⊎◌, inl, inr, arith, Bool-cases, eq_refl,
}
use etcdops.Base.Int.{pos_part}
use etcdops.Kube.{Outcome, done, Frame, Action}
use etcdops.Kube.Laws.{Outcome-cases}
use etcdops.Types.Cluster.{Cluster, ClusterPhase, should_update}
use etcdops.Env.{Env, IsLawful, Ret, proceed, or_return, returns_early}
use etcdops.Controller.{requeue, is_zero-requeue}
use etcdops.ClusterController.{
  ensure_backup_schedule, ensure_service, ensure_ca, repair_if_minor, update_if_due, set_version,
  reconcile_body,
}
use etcdops.ClusterController.Members.{ensure_members}
use etcdops.ClusterController.Update.{update_members}
use etcdops.ClusterController.Update.Rolling.{
  stops, completes, AllSettled, Stops, unread, waits, asks_version, asks_certificates,
  withdrawn_waits, refused, update_members-Rolls,
}

-- The version of the spec, recorded in the status
abbrev pub versioned : Cluster → Cluster
versioned c = record c { status = record (c.status) { version = c.spec.version } }

-- The cluster when all its members are found running again, with certificates that are due or not
abbrev pub recovered : Bool → Cluster → Cluster
recovered due c = record c {
  status = record (c.status) { phase = ClusterPhase.running; certificate_expires = due };
}

module _ (V : Env) (cluster_issuer : String) where
  -- The first four steps of a pass, up to the phase of the members
  abbrev pub prepare : Action V.World Cluster (Ret V)
  prepare =
      or_return V (ensure_backup_schedule V) (
        or_return V (ensure_service V)
          (or_return V (ensure_ca V cluster_issuer) (ensure_members V)))

  -- What stands behind them
  abbrev pub conclude : Action V.World Cluster (Ret V)
  conclude = or_return V (repair_if_minor V) (or_return V (update_if_due V) (set_version V))

  -- The handler goes on behind a step that ends so.
  abbrev Continues : Outcome (Ret V) → Type 0
  Continues o = (r : Ret V) × (o ≡ done r) × (returns_early V r ≡ false)

  or_return_assoc :
      (a b c : Action V.World Cluster (Ret V))
      → or_return V (or_return V a b) c ≡ or_return V a (or_return V b c)
  or_return_assoc a b c = fun_ext λ f. ground arith

  -- A pass is its four first steps and then the conclusion.
  reconcile_body-split : reconcile_body V cluster_issuer ≡ or_return V prepare conclude
  unfolding reconcile_body
  reconcile_body-split =
      let members = ensure_members V in
      let ca = ensure_ca V cluster_issuer in
      let service = ensure_service V in
      let schedule = ensure_backup_schedule V in
      sym (
        or_return_assoc schedule (or_return V service (or_return V ca members)) conclude
        ∙ ap (or_return V schedule) (
            or_return_assoc service (or_return V ca members) conclude
            ∙ ap (or_return V service) (or_return_assoc ca members conclude)))

  -- Behind four steps without an early return, a pass is its conclusion.
  reconcile_body-conclude :
      IsLawful V
      → (f g : Frame V.World Cluster) → prepare f ≡ (done (proceed V), g)
      → reconcile_body V cluster_issuer f ≡ conclude g
  reconcile_body-conclude L f g p = rw reconcile_body-split (ground (arith, L.is_zero_no_result))

  -- If the members leave the cluster in the phase Failed or Creating, the pass records the version
  -- of the spec as the cluster's version without a look at a member's version and without a change
  -- of any: nothing but the status of the cluster differs behind it. When its
  -- members run again, a cluster with that record is due for an update exactly if certificates are:
  -- the version alone makes no update due.
  pub reconcile_body_drops_update :
      IsLawful V
      → (f g : Frame V.World Cluster) → prepare f ≡ (done (proceed V), g)
      → (g.self.status.phase ≡ ClusterPhase.failed) ⊎ (g.self.status.phase ≡ ClusterPhase.creating)
      → (reconcile_body V cluster_issuer f
          ≡ (done (proceed V), record g { self = versioned g.self }))
        × ((due : Bool) → should_update (recovered due (versioned g.self)) ≡ due)
  unfolding should_update repair_if_minor update_if_due set_version
  reconcile_body_drops_update L f g p phase = (
    rw (reconcile_body-conclude L f g p) (ground (arith, L.is_zero_no_result)),
    λ due. ground (arith, eq_refl g.self.spec.version),
  )

  -- A pass that stops at a member does not end with nothing left to do.
  Stops-ends :
      IsLawful V
      → {j : ℕ} {f g : Frame V.World Cluster} {o : Outcome (Ret V)} → Stops V j f o g
      → Continues o
      → ⊥
  unfolding requeue
  Stops-ends L (unread _ _ e) c = ground (arith, is_zero-requeue V L)
  Stops-ends L (waits _ _ _ e) c = ground (arith, is_zero-requeue V L)
  Stops-ends L (asks_version _ _ _ _ _ e _ _) c = ground (arith, is_zero-requeue V L)
  Stops-ends L (asks_certificates _ _ _ _ _ _ _ _ e _) c = ground (arith, is_zero-requeue V L)
  Stops-ends L (withdrawn_waits _ _ _ _ _ _ _ _ e _) c = ground (arith, is_zero-requeue V L)
  Stops-ends L (refused _ _ _ _ _ _ e _) c = ground (arith, is_zero-requeue V L)

  -- If the members run and an update is due, a pass that ends with nothing left to do has settled
  -- every member.
  pub reconcile_body_settles :
      IsLawful V
      → (f g : Frame V.World Cluster) → prepare f ≡ (done (proceed V), g)
      → should_update g.self ≡ true
      → (reconcile_body V cluster_issuer f).0 ≡ done (proceed V)
      → (h : Frame V.World Cluster) × AllSettled V 0 (pos_part g.self.spec.size) g h
  unfolding should_update repair_if_minor update_if_due set_version
  reconcile_body_settles L f g p due ended =
      let concluded : (conclude g).0 ≡ done (proceed V) =
        rw (reconcile_body-conclude L f g p) at ended in
      elim (update_members-Rolls V L g) [
        | completes j h all end _ _ ↦
            let last : j ≡ pos_part g.self.spec.size = omega arith in (h, rw last at all)
        | stops j h _ _ stop ↦ absurd (
            Stops-ends L stop (elim (Outcome-cases (update_members V g).0) [
              | inr crash ↦ absurd (ground (arith, L.is_zero_no_result))
              | inl (r, q) ↦ (
                r,
                q,
                elim (Bool-cases (returns_early V r)) [
                  | inr on ↦ on
                  | inl early ↦ absurd (ground (arith, L.is_zero_no_result))
                ],
              )
            ]))
      ]

-- ===== src/MemberController/Advance/Pass.antt =====
-- A pass over a member that is not marked as broken (controllers/member_controller.go, `Reconcile`).
use etcdops.Base.{true, false, ◌≡◌, refl, sym, ◌∙◌, ap, subst, inl, inr, arith, Bool-cases}
use etcdops.Kube.{Outcome, done, Action, pure}
use etcdops.Types.Member.{Member, should_update}
use etcdops.Types.Member.Pod.{get_pod}
use etcdops.Env.{Env, IsLawful, Ret, proceed, or_return, returns_early}
use etcdops.MemberController.{repair_if_broken, update_if_due, reconcile_body}
use etcdops.MemberController.Certificates.{ensure_certificates, check_certificate_expires, suffixes}
use etcdops.MemberController.Ensure.{ensure_pvc}
use etcdops.MemberController.Pods.{ensure_pod, delete_pod, after_delete}
use etcdops.MemberController.Pods.Phase.{ensure_pod-Observes, Observes}
use etcdops.MemberController.Advance.{
  restarting, stays, fails, restarts, runs, Moves, Fr, Looks, MovesTo, or_return-cases,
  or_return-Moves,
}
use etcdops.MemberController.Advance.Certificates.{
  ensure_each-self, check_certificate_expires-Looks, ensure_pvc-self,
}

module _ (V : Env) where
  -- A look at the pod of a member that is not due for an update,
  Observes-Moves :
      (f g : Fr V) {o : Outcome (Ret V)}
      → Observes V f o g
      → should_update f.self ≡ false
      → MovesTo V f g
  Observes-Moves f g (Observes.refused _) due = (refl, refl, stays refl refl refl)
  Observes-Moves f g (Observes.recreated_lost _ ran) due = (refl, refl, fails ran due refl refl)
  Observes-Moves f g (Observes.recreated _ _) due = (refl, refl, stays refl refl refl)
  Observes-Moves f g (Observes.runs _ _ _) due = (refl, refl, runs refl refl)
  Observes-Moves f g (Observes.lost _ _ ran _) due = (refl, refl, fails ran due refl refl)
  Observes-Moves f g (Observes.pending _ _ _ _) due = (refl, refl, stays refl refl refl)

  restarting-Moves : (m m' : Member) → m' ≡ restarting m → should_update m ≡ true → Moves m m'
  restarting-Moves m m' e due = subst (Moves m) (sym e) (refl, refl, restarts due refl refl refl)

  -- and of one that restarts
  Observes-restarts :
      (m : Member) (f g : Fr V) {o : Outcome (Ret V)}
      → Observes V f o g
      → f.self ≡ restarting m
      → should_update m ≡ true
      → Moves m g.self
  Observes-restarts m f g (Observes.refused _) e due = restarting-Moves m f.self e due
  Observes-restarts m f g (Observes.recreated_lost _ ran) e due = absurd (ground arith)
  Observes-restarts m f g (Observes.recreated _ _) e due = restarting-Moves m f.self e due
  Observes-restarts m f g (Observes.runs _ _ _) e due =
      (ap (λ x. x.metadata) e, ap (λ x. x.spec) e, runs refl (ap (λ x. x.spec.version) e))
  Observes-restarts m f g (Observes.lost _ _ ran _) e due = absurd (ground arith)
  Observes-restarts m f g (Observes.pending _ _ _ _) e due = restarting-Moves m f.self e due

  -- The end of the pass
  abbrev pub look_at_pod : Action V.World Member (Ret V)
  look_at_pod = or_return V (ensure_pod V) (pure (proceed V))

  look_at_pod-frame : (f : Fr V) → (look_at_pod f).1 ≡ (ensure_pod V f).1
  look_at_pod-frame f = elim (or_return-cases V (ensure_pod V) (pure (proceed V)) f) [
    | inl e ↦ e
    | inr e ↦ ap (λ u. u.1) e
  ]

  update-Moves :
      IsLawful V → (f : Fr V) → MovesTo V f (or_return V (update_if_due V) look_at_pod f).1
  unfolding update_if_due delete_pod
  update-Moves L f = elim (Bool-cases (should_update f.self)) [
    | inr h ↦
        let goes : or_return V (update_if_due V) look_at_pod f ≡ look_at_pod f =
          ground (arith, L.is_zero_no_result) in
        let frame = ap (λ u. u.1) goes ∙ look_at_pod-frame f in
        subst (MovesTo V f) (sym frame)
          (Observes-Moves f (ensure_pod V f).1 (ensure_pod-Observes V f) h)
    | inl h ↦
        let reply = V.pods.delete (get_pod f.self) f.world in
        let gone : Fr V = record { world = reply.1; self = restarting f.self } in
        elim (Bool-cases (returns_early V (after_delete V reply.0))) [
          | inl early ↦
              let frame : (or_return V (update_if_due V) look_at_pod f).1
                  ≡ record f { world = reply.1 } =
                ground arith in
              subst (MovesTo V f) (sym frame) (refl, refl, stays refl refl refl)
          | inr goes_on ↦
              let goes : or_return V (update_if_due V) look_at_pod f ≡ look_at_pod gone =
                ground (arith, L.is_zero_no_result) in
              let frame = ap (λ u. u.1) goes ∙ look_at_pod-frame gone in
              subst (MovesTo V f) (sym frame) (
                Observes-restarts f.self gone (ensure_pod V gone).1 (ensure_pod-Observes V gone)
                  refl h)
        ]
  ]

  same-Looks : (f g : Fr V) → g.self ≡ f.self → Looks V f g
  same-Looks f g e = (f.self.status.certificate_expires, e)

  -- The pass, behind a repair and behind the certificates
  abbrev pub behind_certificates : Action V.World Member (Ret V)
  behind_certificates = or_return V (ensure_pvc V) (or_return V (update_if_due V) look_at_pod)

  abbrev pub behind_repair : Action V.World Member (Ret V)
  behind_repair =
      or_return V (ensure_certificates V)
        (or_return V (check_certificate_expires V) behind_certificates)

  behind_certificates-Moves : IsLawful V → (f : Fr V) → MovesTo V f (behind_certificates f).1
  behind_certificates-Moves L f =
      or_return-Moves V (ensure_pvc V) (or_return V (update_if_due V) look_at_pod) f
        (same-Looks f (ensure_pvc V f).1 (ensure_pvc-self V f)) (update-Moves L (ensure_pvc V f).1)

  pub behind_repair-Moves : IsLawful V → (f : Fr V) → MovesTo V f (behind_repair f).1
  unfolding ensure_certificates
  behind_repair-Moves L f =
      let g = (ensure_certificates V f).1 in
      or_return-Moves V (ensure_certificates V)
        (or_return V (check_certificate_expires V) behind_certificates) f
        (same-Looks f g (ensure_each-self V suffixes false f))
        (or_return-Moves V (check_certificate_expires V) behind_certificates g
          (check_certificate_expires-Looks V g)
          (behind_certificates-Moves L (check_certificate_expires V g).1))

  repair_if_broken-none :
      (f : Fr V) → f.self.spec.broken ≡ false → repair_if_broken V f ≡ (done (proceed V), f)
  unfolding repair_if_broken
  repair_if_broken-none f whole = ground arith

  -- A pass over a member that is not marked as broken leaves its metadata and its spec as they are.
  -- Its phase and version stay, or it restarts or fails or runs: it restarts only if it is due for an
  -- update, once its certificates are looked at, it fails only if it was running and is not due, and
  -- if it runs behind the pass, then with the version of its spec.
  pub reconcile_body-Moves :
      IsLawful V
      → (f : Fr V) → f.self.spec.broken ≡ false
      → Moves f.self (reconcile_body V f).1.self
  unfolding reconcile_body
  reconcile_body-Moves L f whole =
      or_return-Moves V (repair_if_broken V) behind_repair f
        (same-Looks f (repair_if_broken V f).1 (ap (λ u. u.1.self) (repair_if_broken-none f whole)))
        (behind_repair-Moves L (repair_if_broken V f).1)

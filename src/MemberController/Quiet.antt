-- ===== src/MemberController/Quiet.antt =====
-- A pass over a member (controllers/member_controller.go, `Reconcile`) writes no member but its own,
-- and that one by its deferred status update alone, if it is not marked as broken.
use etcdops.Base.{
  String, Bool, false, ◌||◌, List, [], ◌∷◌, ◌≡◌, refl, sym, ◌∙◌, ap, inl, inr, arith, Bool-cases,
  Option-cases,
}
use etcdops.Base.Int.{ltb_ℤ}
use etcdops.Kube.{Answer, Outcome, Action, Pod, NamespacedName, OperationResult, pure, ◌>>◌}
use etcdops.Kube.Laws.{Answer-cases}
use etcdops.Types.Member.{Member, MemberPhase, should_update, is_creating}
use etcdops.Types.Member.Pod.{get_pod}
use etcdops.Types.Member.Objects.{get_certificate, get_certificate_name, get_pvc}
use etcdops.Env.{Env, OwnerKind, Ret, proceed, or_return}
use etcdops.Env.Store.{MemberStore, MemberCalls}
use etcdops.Controller.{skip_update}
use etcdops.MemberController.{repair_if_broken, update_if_due, reconcile_body}
use etcdops.MemberController.Certificates.{
  ensure_each, ensure_certificates, check_each, check_certificate_expires, suffixes,
  is_zero_pointer,
}
use etcdops.MemberController.Ensure.{create_pvc, ensure_pvc}
use etcdops.MemberController.Pods.{ensure_pod, delete_pod, set_member_phase}
use etcdops.MemberController.Pods.Phase.{ensure_pod-Observes, Observes, Answers}
use etcdops.MemberController.Advance.{Fr, or_return-cases, seen}

module _ (V : Env) (S : MemberStore V) (K : MemberCalls V S) where
  -- A step leaves all stored members as they are.
  abbrev pub Quiet : Action V.World Member (Ret V) → Type 0
  Quiet a = (f : Fr V) (k : NamespacedName) → S.lookup k (a f).1.world ≡ S.lookup k f.world

  or_return-Quiet :
      (a b : Action V.World Member (Ret V)) → Quiet a → Quiet b → Quiet (or_return V a b)
  or_return-Quiet a b qa qb f k = elim (or_return-cases V a b f) [
    | inl e ↦ ap (λ g. S.lookup k g.world) e ∙ qa f k
    | inr e ↦ ap (λ u. S.lookup k u.1.world) e ∙ qb (a f).1 k ∙ qa f k
  ]

  ensure_each-Quiet : (l : List String) (prepare : Bool) → Quiet (ensure_each V l prepare)
  unfolding ensure_each
  ensure_each-Quiet [] prepare f k = refl
  ensure_each-Quiet (suffix ∷ rest) prepare f k =
      let cert = get_certificate f.self suffix in
      elim (Answer-cases
        (V.set_controller_reference OwnerKind.member f.self.metadata cert.metadata)) [
          | inr (e, p) ↦ ground arith
          | inl (meta, p) ↦
              let a = record cert { metadata = meta } in
              let reply = V.certificates.create_or_update a skip_update f.world in
              let kept = K.certificates_create_keeps a skip_update f.world k in
              elim (Answer-cases reply.0) [
                | inr (e, q) ↦ ground (arith, kept)
                | inl ((found, op), q) ↦ ground (
                  arith,
                  kept,
                  ensure_each-Quiet rest (prepare || is_zero_pointer found.not_before)
                      (record f { world = reply.1 }) k,
                )
              ]
        ]

  check_each-Quiet : (pod : Pod) (l : List String) → Quiet (check_each V pod l)
  unfolding check_each
  check_each-Quiet pod [] f k = refl
  check_each-Quiet pod (suffix ∷ rest) f k =
      let key : NamespacedName = record {
        name = get_certificate_name f.self suffix;
        namespace = f.self.metadata.namespace;
      } in
      let reply = V.certificates.get key f.world in
      let kept = K.certificates_get_keeps key f.world k in
      elim (Answer-cases reply.0) [
        | inr (e, p) ↦ ground (arith, kept)
        | inl (cert, p) ↦ elim (Option-cases cert.not_before) [
          | inl q ↦ ground (arith, kept)
          | inr (t, q) ↦ ground (
            arith,
            kept,
            check_each-Quiet pod rest
                (record {
                  world = reply.1;
                  self = seen f.self (ltb_ℤ pod.metadata.creation_timestamp t);
                })
                k,
          )
        ]
      ]

  check_certificate_expires-Quiet : Quiet (check_certificate_expires V)
  unfolding check_certificate_expires
  check_certificate_expires-Quiet f k =
      let key : NamespacedName = record {
        name = f.self.metadata.name;
        namespace = f.self.metadata.namespace;
      } in
      let reply = V.pods.get key f.world in
      let kept = K.pods_get_keeps key f.world k in
      elim (Answer-cases reply.0) [
        | inr (e, p) ↦ ground (arith, kept)
        | inl (pod, p) ↦
            ground (arith, kept, check_each-Quiet pod suffixes (record f { world = reply.1 }) k)
      ]

  ensure_pvc-Quiet : Quiet (ensure_pvc V)
  unfolding ensure_pvc create_pvc
  ensure_pvc-Quiet f k =
      let pvc = get_pvc f.self in
      elim (Bool-cases (is_creating f.self)) [
        | inr h ↦ ground arith
        | inl h ↦
            elim (Answer-cases
              (V.set_controller_reference OwnerKind.member f.self.metadata pvc.metadata)) [
                | inr (e, p) ↦ ground arith
                | inl (meta, p) ↦ ground (
                  arith,
                  K.pvcs_create_keeps (record pvc { metadata = meta }) skip_update f.world k,
                )
              ]
      ]

  delete_pod-Quiet : Quiet (delete_pod V)
  unfolding delete_pod
  delete_pod-Quiet f k = K.pods_delete_keeps (get_pod f.self) f.world k

  update_if_due-Quiet : Quiet (update_if_due V)
  unfolding update_if_due
  update_if_due-Quiet f k = elim (Bool-cases (should_update f.self)) [
    | inr h ↦ ground arith
    | inl h ↦ ground (
      arith,
      or_return-Quiet (delete_pod V) (do set_member_phase V MemberPhase.updating; pure (proceed V))
          delete_pod-Quiet (λ g j. refl) f k,
    )
  ]

  -- What a look at the pod leaves
  Answers-Quiet :
      (f : Fr V) {a : Answer V.Error (Pod × OperationResult)} {w : V.World}
      → Answers V f a w
      → (k : NamespacedName) → S.lookup k w ≡ S.lookup k f.world
  Answers-Quiet f (meta, _, reply) k =
      ap (λ u. S.lookup k u.1) (sym reply)
      ∙ K.pods_create_keeps (record (get_pod f.self) { metadata = meta }) skip_update f.world k

  Observes-Quiet :
      (f g : Fr V) {o : Outcome (Ret V)}
      → Observes V f o g
      → (k : NamespacedName) → S.lookup k g.world ≡ S.lookup k f.world
  Observes-Quiet f g (Observes.refused (inl (_, same))) k = ap (S.lookup k) same
  Observes-Quiet f g (Observes.refused (inr answers)) k = Answers-Quiet f answers k
  Observes-Quiet f g (Observes.recreated_lost {w = w} answers _) k =
      K.now_keeps w k ∙ Answers-Quiet f answers k
  Observes-Quiet f g (Observes.recreated answers _) k = Answers-Quiet f answers k
  Observes-Quiet f g (Observes.runs answers _ _) k = Answers-Quiet f answers k
  Observes-Quiet f g (Observes.lost {w = w} answers _ _ _) k =
      K.now_keeps w k ∙ Answers-Quiet f answers k
  Observes-Quiet f g (Observes.pending answers _ _ _) k = Answers-Quiet f answers k

  ensure_pod-Quiet : Quiet (ensure_pod V)
  ensure_pod-Quiet f = Observes-Quiet f (ensure_pod V f).1 (ensure_pod-Observes V f)

  abbrev pub behind_repair : Action V.World Member (Ret V)
  behind_repair = or_return V (ensure_certificates V) (
      or_return V (check_certificate_expires V) (
        or_return V (ensure_pvc V)
          (or_return V (update_if_due V) (or_return V (ensure_pod V) (pure (proceed V))))))

  pub behind_repair-Quiet : Quiet behind_repair
  unfolding ensure_certificates
  behind_repair-Quiet = or_return-Quiet _ _ (ensure_each-Quiet suffixes false) (
      or_return-Quiet _ _ check_certificate_expires-Quiet (
        or_return-Quiet _ _ ensure_pvc-Quiet (
          or_return-Quiet _ _ update_if_due-Quiet
            (or_return-Quiet _ _ ensure_pod-Quiet (λ f k. refl)))))

  pub reconcile_body-Quiet :
      (f : Fr V)
      → f.self.spec.broken ≡ false
      → (k : NamespacedName) → S.lookup k (reconcile_body V f).1.world ≡ S.lookup k f.world
  unfolding reconcile_body repair_if_broken
  reconcile_body-Quiet f whole k = elim (or_return-cases V (repair_if_broken V) behind_repair f) [
    | inl e ↦ ap (λ g. S.lookup k g.world) e ∙ ground arith
    | inr e ↦
        let still : (repair_if_broken V f).1 ≡ f = ground arith in
        ap (λ u. S.lookup k u.1.world) e
        ∙ behind_repair-Quiet (repair_if_broken V f).1 k
        ∙ ap (λ g. S.lookup k g.world) still
  ]

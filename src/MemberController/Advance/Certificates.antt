-- ===== src/MemberController/Advance/Certificates.antt =====
-- The steps of a member's pass in front of the update (controllers/member_controller.go).
use etcdops.Base.{String, Bool, ◌||◌, List, [], ◌∷◌, ◌≡◌, refl, inl, inr, arith, Option-cases}
use etcdops.Base.Int.{ltb_ℤ}
use etcdops.Kube.{Pod, NamespacedName}
use etcdops.Kube.Laws.{Answer-cases}
use etcdops.Types.Member.Objects.{get_certificate, get_certificate_name}
use etcdops.Env.{Env, OwnerKind}
use etcdops.Controller.{skip_update}
use etcdops.MemberController.Certificates.{
  ensure_each, check_each, check_certificate_expires, suffixes, is_zero_pointer,
}
use etcdops.MemberController.Ensure.{create_pvc, ensure_pvc}
use etcdops.MemberController.Pods.{delete_pod}
use etcdops.MemberController.Advance.{seen, Fr, Looks}

module _ (V : Env) where
  pub ensure_each-self :
      (l : List String) (prepare : Bool) (f : Fr V) → (ensure_each V l prepare f).1.self ≡ f.self
  unfolding ensure_each
  ensure_each-self [] prepare f = refl
  ensure_each-self (suffix ∷ rest) prepare f =
      let cert = get_certificate f.self suffix in
      elim (Answer-cases
        (V.set_controller_reference OwnerKind.member f.self.metadata cert.metadata)) [
          | inr (e, p) ↦ ground arith
          | inl (meta, p) ↦
              let reply =
                V.certificates.create_or_update (record cert { metadata = meta }) skip_update
                  f.world in
              elim (Answer-cases reply.0) [
                | inr (e, q) ↦ ground arith
                | inl ((found, op), q) ↦ ground (
                  arith,
                  ensure_each-self rest (prepare || is_zero_pointer found.not_before)
                      (record f { world = reply.1 }),
                )
              ]
        ]

  check_each-Looks : (pod : Pod) (l : List String) (f : Fr V) → Looks V f (check_each V pod l f).1
  unfolding check_each
  check_each-Looks pod [] f = (f.self.status.certificate_expires, refl)
  check_each-Looks pod (suffix ∷ rest) f =
      let key : NamespacedName = record {
        name = get_certificate_name f.self suffix;
        namespace = f.self.metadata.namespace;
      } in
      let reply = V.certificates.get key f.world in
      elim (Answer-cases reply.0) [
        | inr (e, p) ↦ (f.self.status.certificate_expires, ground arith)
        | inl (cert, p) ↦ elim (Option-cases cert.not_before) [
          | inl q ↦ (f.self.status.certificate_expires, ground arith)
          | inr (t, q) ↦
              let (b, e) = check_each-Looks pod rest (record {
                world = reply.1;
                self = seen f.self (ltb_ℤ pod.metadata.creation_timestamp t);
              }) in
              (b, ground (arith, e))
        ]
      ]

  pub check_certificate_expires-Looks : (f : Fr V) → Looks V f (check_certificate_expires V f).1
  unfolding check_certificate_expires
  check_certificate_expires-Looks f =
      let key : NamespacedName = record {
        name = f.self.metadata.name;
        namespace = f.self.metadata.namespace;
      } in
      let reply = V.pods.get key f.world in
      elim (Answer-cases reply.0) [
        | inr (e, p) ↦ (f.self.status.certificate_expires, ground arith)
        | inl (pod, p) ↦
            let (b, e) = check_each-Looks pod suffixes (record f { world = reply.1 }) in
            (b, ground (arith, e))
      ]

  pub ensure_pvc-self : (f : Fr V) → (ensure_pvc V f).1.self ≡ f.self
  unfolding ensure_pvc create_pvc
  ensure_pvc-self f = ground arith

  delete_pod-self : (f : Fr V) → (delete_pod V f).1.self ≡ f.self
  unfolding delete_pod
  delete_pod-self f = refl

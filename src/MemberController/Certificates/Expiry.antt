-- ===== src/MemberController/Certificates/Expiry.antt =====
-- Which certificate decides whether a member has to be restarted (controllers/member_controller.go,
-- `CheckCertificateExpires`).
use etcdops.Base.{String, ◌≡◌, arith, some}
use etcdops.Base.Int.{ltb_ℤ}
use etcdops.Kube.{ok, done, Frame, Certificate, Pod, Time, NamespacedName}
use etcdops.Types.Member.{Member}
use etcdops.Types.Member.Objects.{get_certificate_name}
use etcdops.Env.{Env, proceed}
use etcdops.MemberController.Certificates.{check_each, check_certificate_expires}

abbrev certificate_key : Member → String → NamespacedName
certificate_key m suffix = record {
  name = get_certificate_name m suffix;
  namespace = m.metadata.namespace;
}

abbrev pod_key : Member → NamespacedName
pod_key m = record { name = m.metadata.name; namespace = m.metadata.namespace }

module _ (V : Env) where
  -- If the pod and both certificates exist and are issued, a member's certificates count as expired
  -- exactly if the peer certificate was issued after the pod was created: what the client
  -- certificate says is overwritten.
  pub check_certificate_expires_peer :
      (f : Frame V.World Member)
      → {pod : Pod} {client peer : Certificate} {t u : Time} {w1 w2 w3 : V.World}
      → V.pods.get (pod_key f.self) f.world ≡ (ok pod, w1)
      → V.certificates.get (certificate_key f.self "client") w1 ≡ (ok client, w2)
      → client.not_before ≡ some t
      → V.certificates.get (certificate_key f.self "peer") w2 ≡ (ok peer, w3)
      → peer.not_before ≡ some u
      → check_certificate_expires V f ≡ (
        done (proceed V),
        record {
          world = w3;
          self = record (f.self) {
            status = record (f.self.status) {
              certificate_expires = ltb_ℤ pod.metadata.creation_timestamp u;
            };
          };
        },
      )
  unfolding check_certificate_expires check_each get_certificate_name
  check_certificate_expires_peer f p c ct q qt = ground arith

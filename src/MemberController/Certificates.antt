-- ===== src/MemberController/Certificates.antt =====
-- `EnsureCertificates` and `CheckCertificateExpires`.
pub mod Expiry
use etcdops.Base.{String, Bool, true, false, ◌||◌, List, [], ◌∷◌, Option, some, none, if◌then◌else◌}
use etcdops.Base.Int.{ltb_ℤ}
use etcdops.Kube.{
  ok, err, Action, Pod, Time, is_zero_time, pure, call, get_self, put_self, deref, ◌>>=◌, ◌>>◌,
}
use etcdops.Types.Member.{Member}
use etcdops.Types.Member.Objects.{get_certificate, get_certificate_name}
use etcdops.Env.{Env, OwnerKind, Ret, proceed, failing}
use etcdops.Controller.{skip_update, requeue}

abbrev pub suffixes : List String
suffixes = "client" ∷ "peer" ∷ []

-- `NotBefore.IsZero()`: a nil pointer is zero.
abbrev pub is_zero_pointer : Option Time → Bool
is_zero_pointer none = true
is_zero_pointer (some t) = is_zero_time t

module _ (V : Env) where
  -- The loop over the suffixes, and what stands behind it
  unfoldable pub ensure_each : List String → Bool → Action V.World Member (Ret V)
  ensure_each [] prepare =
      pure (if prepare then record { result = requeue; error = none } else proceed V)
  ensure_each (suffix ∷ rest) prepare = do
    m ← get_self
    let cert = get_certificate m suffix
    elim (V.set_controller_reference OwnerKind.member m.metadata cert.metadata) [
      | err e ↦ pure (failing V (some e))
      | ok meta ↦ do
        a ← call (V.certificates.create_or_update (record cert { metadata = meta }) skip_update)
        elim a [
          | err e ↦ pure (failing V (some e))
          | ok (found, _) ↦ ensure_each rest (prepare || is_zero_pointer found.not_before)
        ]
    ]

  unfoldable pub ensure_certificates : Action V.World Member (Ret V)
  unfolding ensure_each
  ensure_certificates = ensure_each suffixes false

  -- `member.Status.CertificateExpires = b`
  abbrev pub set_certificate_expires : Bool → Action V.World Member (Unit {0})
  set_certificate_expires b = do
    m ← get_self
    put_self (record m { status = record (m.status) { certificate_expires = b } })

  -- The loop over the suffixes. `After` reads through the pointer `NotBefore`.
  unfoldable pub check_each : Pod → List String → Action V.World Member (Ret V)
  check_each pod [] = pure (proceed V)
  check_each pod (suffix ∷ rest) = do
    m ← get_self
    a ← call (
        V.certificates.get
          (record { name = get_certificate_name m suffix; namespace = m.metadata.namespace }))
    elim a [
      | err e ↦ pure (failing V (V.ignore_not_found e))
      | ok cert ↦ do
        not_before ← deref (cert.not_before)
        set_certificate_expires (ltb_ℤ pod.metadata.creation_timestamp not_before)
        check_each pod rest
    ]

  unfoldable pub check_certificate_expires : Action V.World Member (Ret V)
  unfolding check_each
  check_certificate_expires = do
    m ← get_self
    a ← call (V.pods.get (record { name = m.metadata.name; namespace = m.metadata.namespace }))
    elim a [ err e ↦ pure (failing V (V.ignore_not_found e)) | ok pod ↦ check_each pod suffixes ]

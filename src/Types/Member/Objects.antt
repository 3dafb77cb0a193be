-- ===== src/Types/Member/Objects.antt =====
-- The certificates and the volume claim of a member.
use etcdops.Base.{String, ◌<>◌, false, [], ◌∷◌, none}
use etcdops.Kube.{
  Finalizer, Certificate, RotationPolicy, KeyAlgorithm, KeyEncoding, VolumeClaim, AccessMode,
  new_meta,
}
use etcdops.Types.Member.{Member, cluster_label, get_fqdn}

unfoldable pub get_certificate_name : Member → String → String
get_certificate_name m suffix = m.metadata.name <> ("-" <> suffix)

unfoldable pub get_certificate : Member → String → Certificate
unfolding get_certificate_name
get_certificate m suffix = record {
  metadata = record (new_meta (get_certificate_name m suffix) m.metadata.namespace) {
    finalizers = Finalizer.delete_dependents ∷ [];
  };
  is_ca = false;
  common_name = "";
  secret_name = m.metadata.name <> ("-" <> suffix);
  secret_labels = (cluster_label, m.spec.cluster_name) ∷ [];
  private_key = record {
    rotation_policy = RotationPolicy.always;
    algorithm = KeyAlgorithm.rsa;
    encoding = KeyEncoding.pkcs1;
    size = 2048;
  };
  issuer_ref = record { name = m.spec.cluster_name; kind = "Issuer"; group = "cert-manager.io" };
  dns_names = get_fqdn m ∷ [];
  not_before = none;
}

unfoldable pub get_pvc : Member → VolumeClaim
get_pvc m = record {
  metadata = record (new_meta m.metadata.name m.metadata.namespace) {
    labels = ("name", m.spec.cluster_name) ∷ [];
    finalizers = Finalizer.delete_dependents ∷ [];
  };
  access_modes = AccessMode.read_write_once ∷ [];
  storage = "30Gi";
}

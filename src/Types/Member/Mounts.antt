-- ===== src/Types/Member/Mounts.antt =====
-- Where the volumes of a member's pod come from (api/v1alpha1/member_types.go, `GetPod`, `GetPVC` and
-- `GetCertificate`).
use etcdops.Base.{
  String, ◌||◌, true, false, List, [], ◌∷◌, ◌≡◌, refl, ◌⊎◌, inl, inr, Memᴰ, All, str_eq, Bool,
  if◌then◌else◌,
}
use etcdops.Kube.{Container, Volume, VolumeMount, VolumeSource}
use etcdops.Types.Member.{Member, is_recreating}
use etcdops.Types.Member.Objects.{get_certificate, get_pvc}
use etcdops.Types.Member.Pod.{
  get_pod, get_containers, get_init_containers, get_peer_cert_secret, get_client_cert_secret,
  data_path, data_volume_name, peer_cert_path, peer_cert_volume_name, client_cert_path,
  client_cert_volume_name,
}

-- The volume claim of the member, or the secret of its client or peer certificate
abbrev pub Supplied : Member → VolumeSource → Type 0
Supplied m source =
    (source ≡ VolumeSource.persistent_volume_claim (get_pvc m).metadata.name)
    ⊎ ((suffix : String) × Memᴰ suffix ("client" ∷ "peer" ∷ [])
        × (source ≡ VolumeSource.secret (get_certificate m suffix).secret_name))

abbrev pub Mounted : Member → VolumeMount → Type 0
Mounted m mount =
    (v : Volume) × Memᴰ v (get_pod m).volumes × (v.name ≡ mount.name) × Supplied m v.source

abbrev pub AllMounted : Member → List Container → Type 0
AllMounted m containers = All (λ c. All (Mounted m) c.volume_mounts) containers

data-Mounted : (m : Member) → Mounted m (record { mount_path = data_path; name = data_volume_name })
unfolding get_pod get_pvc
data-Mounted m = (
  record { name = data_volume_name; source = VolumeSource.persistent_volume_claim m.metadata.name },
  Memᴰ.head refl,
  refl,
  inl refl,
)

peer-Mounted :
    (m : Member) → Mounted m (record { mount_path = peer_cert_path; name = peer_cert_volume_name })
unfolding get_pod get_certificate get_peer_cert_secret
peer-Mounted m = (
  record { name = peer_cert_volume_name; source = VolumeSource.secret (get_peer_cert_secret m) },
  Memᴰ.tail (Memᴰ.head refl),
  refl,
  inr ("peer", Memᴰ.tail (Memᴰ.head refl), refl),
)

client-Mounted :
    (m : Member)
    → Mounted m (record { mount_path = client_cert_path; name = client_cert_volume_name })
unfolding get_pod get_certificate get_client_cert_secret
client-Mounted m = (
  record {
    name = client_cert_volume_name;
    source = VolumeSource.secret (get_client_cert_secret m);
  },
  Memᴰ.tail (Memᴰ.tail (Memᴰ.head refl)),
  refl,
  inr ("client", Memᴰ.head refl, refl),
)

unless_mounted :
    (m : Member) (b : Bool) (containers : List Container)
    → AllMounted m containers
    → AllMounted m (if b then [] else containers)
unless_mounted m true containers all = tt
unless_mounted m false containers all = all

-- Each volume that a container of a member's pod mounts, the one that restores a backup included, is
-- a volume of the pod, and it is the volume claim that the operator creates for the member, or the
-- secret of one of the two certificates that it creates for it.
pub get_pod-AllMounted :
    (m : Member) → AllMounted m (get_pod m).init_containers × AllMounted m (get_pod m).containers
unfolding get_pod get_init_containers get_containers
get_pod-AllMounted m = (
  unless_mounted m (str_eq m.spec.backup "" || is_recreating m.status.phase) _
      ((data-Mounted m, tt), tt),
  ((data-Mounted m, (peer-Mounted m, (client-Mounted m, tt))), tt),
)

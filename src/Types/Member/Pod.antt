-- ===== src/Types/Member/Pod.antt =====
-- The pod of a member: its volumes, its containers and their command lines.
use etcdops.Base.{String, ◌<>◌, ◌||◌, List, [], ◌∷◌, none, some, str_eq, if◌then◌else◌}
use etcdops.Base.Path.{path_join}
use etcdops.Kube.{Finalizer, Pod, Container, VolumeSource, Probe, UriScheme, new_meta}
use etcdops.Types.Member.{
  Member, is_recreating, get_advertise_peer_url, get_advertise_client_url, get_cluster, get_state,
}

abbrev pub data_volume_name : String
data_volume_name = "data"

abbrev pub data_path : String
data_path = "/var/lib/etcd"

abbrev pub peer_cert_volume_name : String
peer_cert_volume_name = "peer-cert"

abbrev pub peer_cert_path : String
peer_cert_path = "/var/lib/ssl/peer"

abbrev pub client_cert_volume_name : String
client_cert_volume_name = "client-cert"

abbrev pub client_cert_path : String
client_cert_path = "/var/lib/ssl/client"

unfoldable pub get_peer_cert_secret : Member → String
get_peer_cert_secret m = m.metadata.name <> "-peer"

unfoldable pub get_client_cert_secret : Member → String
get_client_cert_secret m = m.metadata.name <> "-client"

abbrev pub probe : Probe
probe = record { path = "/health"; port = 2379; scheme = UriScheme.https }

unfoldable pub get_image : Member → String
get_image m = "quay.io/coreos/etcd:v" <> m.spec.version

-- `--name` to `--data-dir` of the restore command
unfoldable pub restore_args : Member → List String
restore_args m =
    "snapshot"
    ∷ "restore"
    ∷ "snapshot.db"
    ∷ "--name"
    ∷ m.metadata.name
    ∷ "--initial-cluster"
    ∷ get_cluster m
    ∷ "--initial-cluster-token"
    ∷ m.spec.cluster_token
    ∷ "--initial-advertise-peer-urls"
    ∷ get_advertise_peer_url m
    ∷ "--data-dir"
    ∷ data_path
    ∷ []

-- `etcd-restore`
unfoldable pub restore_container : Member → Container
unfolding restore_args
restore_container m = record {
  name = "etcd-restore";
  image = get_image m;
  readiness_probe = none;
  ports = [];
  command = "/usr/local/bin/etcdctl" ∷ [];
  args = restore_args m;
  volume_mounts = record { mount_path = data_path; name = data_volume_name } ∷ [];
}

unfoldable pub get_init_containers : Member → List Container
unfolding restore_container
get_init_containers m =
    if str_eq m.spec.backup "" || is_recreating m.status.phase then [] else restore_container m ∷ []

unfoldable pub etcd_args : Member → List String
etcd_args m =
    "--name"
    ∷ m.metadata.name
    ∷ "--initial-advertise-peer-urls"
    ∷ get_advertise_peer_url m
    ∷ "--listen-peer-urls"
    ∷ "https://0.0.0.0:2380"
    ∷ "--advertise-client-urls"
    ∷ get_advertise_client_url m
    ∷ "--listen-client-urls"
    ∷ "https://0.0.0.0:2379"
    ∷ "--initial-cluster"
    ∷ get_cluster m
    ∷ "--initial-cluster-state"
    ∷ get_state m
    ∷ "--initial-cluster-token"
    ∷ m.spec.cluster_token
    ∷ "--data-dir"
    ∷ data_path
    ∷ "--peer-client-cert-auth"
    ∷ "--peer-trusted-ca-file"
    ∷ path_join (peer_cert_path ∷ "ca.crt" ∷ [])
    ∷ "--peer-cert-file"
    ∷ path_join (peer_cert_path ∷ "tls.crt" ∷ [])
    ∷ "--peer-key-file"
    ∷ path_join (peer_cert_path ∷ "tls.key" ∷ [])
    ∷ "--cert-file"
    ∷ path_join (client_cert_path ∷ "tls.crt" ∷ [])
    ∷ "--key-file"
    ∷ path_join (client_cert_path ∷ "tls.key" ∷ [])
    ∷ []

unfoldable pub get_containers : Member → List Container
unfolding etcd_args
get_containers m =
    record {
      name = "etcd";
      image = get_image m;
      readiness_probe = some probe;
      ports = 2379 ∷ 2380 ∷ [];
      command = "/usr/local/bin/etcd" ∷ [];
      args = etcd_args m;
      volume_mounts =
          record { mount_path = data_path; name = data_volume_name }
          ∷ record { mount_path = peer_cert_path; name = peer_cert_volume_name }
          ∷ record { mount_path = client_cert_path; name = client_cert_volume_name }
          ∷ [];
    }
    ∷ []

unfoldable pub get_pod : Member → Pod
get_pod m = record {
  metadata = record (new_meta m.metadata.name m.metadata.namespace) {
    labels = ("name", m.spec.cluster_name) ∷ [];
    finalizers = Finalizer.delete_dependents ∷ [];
  };
  hostname = m.metadata.name;
  subdomain = m.spec.cluster_name;
  init_containers = get_init_containers m;
  containers = get_containers m;
  volumes =
      record {
        name = data_volume_name;
        source = VolumeSource.persistent_volume_claim m.metadata.name;
      }
      ∷ record {
        name = peer_cert_volume_name;
        source = VolumeSource.secret (get_peer_cert_secret m);
      }
      ∷ record {
        name = client_cert_volume_name;
        source = VolumeSource.secret (get_client_cert_secret m);
      }
      ∷ [];
  container_statuses = [];
}

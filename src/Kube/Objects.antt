-- ===== src/Kube/Objects.antt =====
-- Metadata, and the objects of other projects with the fields that the operator sets or reads.
use etcdops.Base.{ℕ, String, Bool, List, [], Option, none}
use etcdops.Base.Int.{ℤ, pos, beq_ℤ}

-- Nanoseconds since Go's zero instant; `pos 0` is the zero value of `time.Time` and `metav1.Time`.
abbrev pub Time : Type 0
Time = ℤ

-- A `time.Duration`, in nanoseconds.
abbrev pub Duration : Type 0
Duration = ℤ

abbrev pub zero_time : Time
zero_time = pos 0

-- `Time.IsZero`
abbrev pub is_zero_time : Time → Bool
is_zero_time t = beq_ℤ t zero_time

-- A `map[string]string`, as the pairs of its literal.
abbrev pub Labels : Type 0
Labels = List (String × String)

pub record OwnerReference : Type 0 where
  pub kind : String
  pub name : String
  pub uid : String

-- `delete_dependents` is the value of `metav1.FinalizerDeleteDependents`.
pub data Finalizer : Type 0 where
  delete_dependents : Finalizer
  named : String → Finalizer

pub record ObjectMeta : Type 0 where
  pub name : String
  pub namespace : String
  pub uid : String
  pub labels : Labels
  pub finalizers : List Finalizer
  pub owners : List OwnerReference
  pub creation_timestamp : Time
  pub deletion_timestamp : Option Time

-- What an object built by the code starts from: a name and a namespace, and Go's zero values.
abbrev pub new_meta : String → String → ObjectMeta
new_meta name namespace = record {
  name = name;
  namespace = namespace;
  uid = "";
  labels = [];
  finalizers = [];
  owners = [];
  creation_timestamp = zero_time;
  deletion_timestamp = none;
}

pub record NamespacedName : Type 0 where
  pub name : String
  pub namespace : String

-- corev1.Service
pub record ServicePort : Type 0 where
  pub name : String
  pub port : ℕ

pub record Service : Type 0 where
  pub metadata : ObjectMeta
  pub selector : Labels
  pub cluster_ip : String
  pub publish_not_ready_addresses : Bool
  pub ports : List ServicePort

-- certv1.Certificate and certv1.Issuer. The enumerations have the constants that the code names.
pub data RotationPolicy : Type 0 where
  unset always : RotationPolicy

pub data KeyAlgorithm : Type 0 where
  ecdsa rsa : KeyAlgorithm

pub data KeyEncoding : Type 0 where
  unset pkcs1 : KeyEncoding

pub record PrivateKey : Type 0 where
  pub rotation_policy : RotationPolicy
  pub algorithm : KeyAlgorithm
  pub encoding : KeyEncoding
  pub size : ℕ

pub record IssuerRef : Type 0 where
  pub name : String
  pub kind : String
  pub group : String

pub record Certificate : Type 0 where
  pub metadata : ObjectMeta
  pub is_ca : Bool
  pub common_name : String
  pub secret_name : String
  pub secret_labels : Labels
  pub private_key : PrivateKey
  pub issuer_ref : IssuerRef
  pub dns_names : List String
  -- `Status.NotBefore`, a pointer
  pub not_before : Option Time

pub record Issuer : Type 0 where
  pub metadata : ObjectMeta
  pub ca_secret_name : String

-- corev1.PersistentVolumeClaim, Pod and Secret
pub data AccessMode : Type 0 where
  read_write_once : AccessMode

pub data UriScheme : Type 0 where
  https : UriScheme

pub record VolumeClaim : Type 0 where
  pub metadata : ObjectMeta
  pub access_modes : List AccessMode
  pub storage : String

pub record VolumeMount : Type 0 where
  pub mount_path : String
  pub name : String

pub record Probe : Type 0 where
  pub path : String
  pub port : ℕ
  pub scheme : UriScheme

pub record Container : Type 0 where
  pub name : String
  pub image : String
  pub readiness_probe : Option Probe
  pub ports : List ℕ
  pub command : List String
  pub args : List String
  pub volume_mounts : List VolumeMount

pub data VolumeSource : Type 0 where
  persistent_volume_claim : String → VolumeSource
  secret : String → VolumeSource

pub record Volume : Type 0 where
  pub name : String
  pub source : VolumeSource

pub record Pod : Type 0 where
  pub metadata : ObjectMeta
  pub hostname : String
  pub subdomain : String
  pub init_containers : List Container
  pub containers : List Container
  pub volumes : List Volume
  -- `Status.ContainerStatuses`, each by its field `Ready`
  pub container_statuses : List Bool

pub record Secret : Type 0 where
  pub metadata : ObjectMeta

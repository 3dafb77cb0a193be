-- ===== src/Types/Member.antt =====
-- api/v1alpha1/member_types.go: members and their addresses. The objects that the operator builds
-- for a member are in Types/Member/Pod.antt and Types/Member/Objects.antt.
pub mod Mounts
pub mod Objects
pub mod Pod
use etcdops.Base.{
  String, ◌<>◌, Bool, true, false, not, ◌&&◌, ◌||◌, List, [], ◌∷◌, str_eq, if◌then◌else◌,
}
use etcdops.Base.Path.{join}
use etcdops.Kube.{ObjectMeta, Time}

-- `ClusterLabel`, of cluster_types.go
abbrev pub cluster_label : String
cluster_label = "cluster.operator.etcd.io"

pub record MemberSpec : Type 0 where
  pub version : String
  pub backup : String
  pub cluster_name : String
  pub cluster_token : String
  pub members : List String
  pub broken : Bool
  pub certificate_update : Bool

-- `unset` is the empty text; `other` is a text that is none of the constants.
pub data MemberPhase : Type 0 where
  unset creating recreating running updating failed : MemberPhase
  other : String → MemberPhase

pub record MemberStatus : Type 0 where
  pub version : String
  pub phase : MemberPhase
  pub failed_time : Time
  pub certificate_expires : Bool

pub record Member : Type 0 where
  pub metadata : ObjectMeta
  pub spec : MemberSpec
  pub status : MemberStatus

abbrev pub is_running : MemberPhase → Bool
is_running MemberPhase.running = true
is_running _ = false

abbrev pub is_failed : MemberPhase → Bool
is_failed MemberPhase.failed = true
is_failed _ = false

abbrev pub is_updating : MemberPhase → Bool
is_updating MemberPhase.updating = true
is_updating _ = false

abbrev pub is_recreating : MemberPhase → Bool
is_recreating MemberPhase.recreating = true
is_recreating _ = false

-- The phases of `IsCreating`
abbrev pub is_creating_phase : MemberPhase → Bool
is_creating_phase MemberPhase.creating = true
is_creating_phase MemberPhase.recreating = true
is_creating_phase MemberPhase.unset = true
is_creating_phase _ = false

unfoldable pub is_creating : Member → Bool
is_creating m = is_creating_phase m.status.phase

unfoldable pub should_update : Member → Bool
should_update m =
    is_running m.status.phase
    && (not (str_eq m.status.version m.spec.version)
        || (m.spec.certificate_update && m.status.certificate_expires))

-- `SetFailed`, at the instant `now`: a member that has failed keeps the time at which it did.
unfoldable pub set_failed : Time → Member → Member
set_failed now m =
    if is_failed m.status.phase
    then m
    else record m { status = record (m.status) { failed_time = now; phase = MemberPhase.failed } }

unfoldable pub member_fqdn : String → String → String → String
member_fqdn name namespace service =
    name <> ("." <> (service <> ("." <> (namespace <> ".svc.cluster.local"))))

unfoldable pub advertise_peer_url : String → String → String → String
unfolding member_fqdn
advertise_peer_url name namespace service =
    "https://" <> (member_fqdn name namespace service <> ":2380")

unfoldable pub advertise_client_url : String → String → String → String
unfolding member_fqdn
advertise_client_url name namespace service =
    "https://" <> (member_fqdn name namespace service <> ":2379")

-- `GetAdvertisePeerURL`, `GetAdvertiseClientURL` and `GetFQDN`
unfoldable pub get_advertise_peer_url : Member → String
unfolding advertise_peer_url
get_advertise_peer_url m =
    advertise_peer_url m.metadata.name m.metadata.namespace m.spec.cluster_name

unfoldable pub get_advertise_client_url : Member → String
unfolding advertise_client_url
get_advertise_client_url m =
    advertise_client_url m.metadata.name m.metadata.namespace m.spec.cluster_name

unfoldable pub get_fqdn : Member → String
unfolding member_fqdn
get_fqdn m = member_fqdn m.metadata.name m.metadata.namespace m.spec.cluster_name

-- The loops of `GetCluster` and `GetEndpoints`, over the names in the member's spec
unfoldable pub peer_entries : Member → List String → List String
peer_entries m [] = []
peer_entries m (x ∷ xs) =
    (x <> ("=" <> advertise_peer_url x m.metadata.namespace m.spec.cluster_name))
    ∷ peer_entries m xs

unfoldable pub get_cluster : Member → String
unfolding peer_entries
get_cluster m = join "," (peer_entries m m.spec.members)

unfoldable pub client_urls : Member → List String → List String
client_urls m [] = []
client_urls m (x ∷ xs) =
    advertise_client_url x m.metadata.namespace m.spec.cluster_name ∷ client_urls m xs

unfoldable pub get_endpoints : Member → List String
unfolding client_urls
get_endpoints m = client_urls m m.spec.members

unfoldable pub get_state : Member → String
get_state m = if is_recreating m.status.phase then "existing" else "new"

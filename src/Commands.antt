-- ===== src/Commands.antt =====
-- cmd/etcdops: the commands that write clusters. A command that prints ends with the object that it
-- hands to `PrettyPrint`. The commands that read are in Commands/Read.antt.
pub mod Restore
pub mod Update
pub mod Flags
pub mod Read
use etcdops.Base.{
  String, ◌<>◌, Bool, true, false, not, ◌&&◌, List, [], ◌∷◌, Option, none, some, str_eq, length,
  ◌==◌, if◌then◌else◌,
}
use etcdops.Base.Int.{ℤ, pos, beq_ℤ}
use etcdops.Kube.{Answer, ok, err, Duration, Finalizer, Labels, NamespacedName, new_meta}
use etcdops.Console.{
  Event, is_deleted, Ended, Console, prints, succeeds, complains, fails, waits_on, panics, wait,
  new_client, wait_for,
}
use etcdops.Types.Cluster.{
  Cluster, ClusterPhase, ClusterSpec, ClusterStatus, is_running, cleanup_secret_finalizer,
}

-- The flags of every command. The flag `kubeconfig` is read by none.
pub record GlobalFlags : Type 0 where
  pub namespace : String
  pub output : String

-- The flags of `update` and of `create`
pub record UpdateParams : Type 0 where
  pub size : ℤ
  pub version : String
  pub backup_creation_period : Duration
  pub backup_retention_period : Duration

pub record CreateParams : Type 0 where
  pub size : ℤ
  pub from_backup : String
  pub backup_creation_period : Duration
  pub backup_retention_period : Duration

-- The conditions of the three commands, which give the cluster of an event that meets them
abbrev pub when : (Cluster → Bool) → Option Cluster → Option Cluster
when test none = none
when test (some c) = if test c then some c else none

unfoldable pub is_rolled_out : UpdateParams → String → Event → Option Cluster
is_rolled_out up name e =
    when (λ c. str_eq c.status.version up.version && str_eq c.metadata.name name) e.object

unfoldable pub is_created : String → Event → Option Cluster
is_created name e = when (λ c. is_running c.status.phase && str_eq c.metadata.name name) e.object

unfoldable pub is_gone : String → Event → Option Cluster
is_gone name e = when (λ c. is_deleted e.event_type && str_eq c.metadata.name name) e.object

-- What `update` makes of the cluster that it fetched, flag by flag
unfoldable pub change_cluster : UpdateParams → Cluster → Cluster
change_cluster up c =
    let retention =
      if not (beq_ℤ up.backup_retention_period (pos 0))
      then up.backup_retention_period
      else c.spec.backup_retention_period in
    record c {
      spec = record (c.spec) {
        size = if not (beq_ℤ up.size (pos 0)) then up.size else c.spec.size;
        version = if not (str_eq up.version "") then up.version else c.spec.version;
        backup_retention_period =
            if not (beq_ℤ up.backup_creation_period (pos 0))
            then up.backup_retention_period
            else retention;
      };
    }

-- `oneOfVersionFromBackup`, of the arguments, with the message of its error
unfoldable pub one_of_version_from_backup : CreateParams → List String → Option String
one_of_version_from_backup cp args =
    if length args == 1 && str_eq cp.from_backup ""
    then some "one of --from-backup or VERSION is required"
    else none

-- What `create` sends
unfoldable pub new_cluster : CreateParams → String → String → String → Cluster
new_cluster cp name namespace version = record {
  metadata = record (new_meta name namespace) {
    finalizers = Finalizer.delete_dependents ∷ cleanup_secret_finalizer ∷ [];
  };
  spec = record {
    version = version;
    size = cp.size;
    backup = cp.from_backup;
    backup_creation_period = cp.backup_creation_period;
    backup_retention_period = cp.backup_retention_period;
  };
  status = record { phase = ClusterPhase.unset; version = ""; certificate_expires = false };
}

-- What `delete` names
unfoldable pub named_cluster : String → String → Cluster
named_cluster name namespace = record {
  metadata = new_meta name namespace;
  spec = record {
    version = "";
    size = pos 0;
    backup = "";
    backup_creation_period = pos 0;
    backup_retention_period = pos 0;
  };
  status = record { phase = ClusterPhase.unset; version = ""; certificate_expires = false };
}

module _ (K : Console) where
  abbrev pub not_found : String → K.Error → Ended K.Error
  not_found name e =
      if K.is_not_found e then complains ("cluster \"" <> (name <> "\" not found")) else fails e

  unfoldable pub update_found : UpdateParams → String → Cluster → K.World → Ended K.Error × K.World
  unfolding wait_for change_cluster is_rolled_out
  update_found up name c w =
      let (a, w') = K.update (change_cluster up c) w in
      elim a [ err e ↦ (fails e, w') | ok _ ↦ wait_for K (is_rolled_out up name) w' ]

  unfoldable pub update_command : UpdateParams → String → K.World → Ended K.Error × K.World
  unfolding new_client update_found
  update_command up name w =
      let (a, w1) = new_client K w in
      elim a [
        | err e ↦ (fails e, w1)
        | ok namespace ↦
            let (b, w2) = K.get (record { name = name; namespace = namespace }) w1 in
            elim b [ err e ↦ (not_found name e, w2) | ok c ↦ update_found up name c w2 ]
      ]

  -- The version is empty if the second argument is missing.
  unfoldable pub create_command :
      CreateParams → String → Option String → K.World → Ended K.Error × K.World
  unfolding new_client wait_for new_cluster is_created
  create_command cp name version w =
      let (a, w1) = new_client K w in
      elim a [
        | err e ↦ (fails e, w1)
        | ok namespace ↦
            let (b, w2) =
              K.create (new_cluster cp name namespace (elim version [ none ↦ "" | some v ↦ v ]))
                w1 in
            elim b [ err e ↦ (fails e, w2) | ok _ ↦ wait_for K (is_created name) w2 ]
      ]

  -- The watch begins before the deletion, and an error leaves through a `Stop` of the watcher,
  -- which panics if there is none.
  unfoldable pub delete_command : String → K.World → Ended K.Error × K.World
  unfolding new_client wait named_cluster is_gone
  delete_command name w =
      let (a, w1) = new_client K w in
      elim a [
        | err e ↦ (fails e, w1)
        | ok namespace ↦
            let (b, w2) = K.watch w1 in
            let (e, w3) = K.delete (named_cluster name namespace) w2 in
            elim b [
              | err _ ↦ (panics, w3)
              | ok events ↦ elim e [
                | some x ↦ (not_found name x, w3)
                | none ↦
                    (elim (wait (is_gone name) events) [ some _ ↦ succeeds | none ↦ waits_on ], w3)
              ]
            ]
      ]

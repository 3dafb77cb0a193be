-- ===== src/Tests/Terminal.antt =====
-- The commands against a server with one cluster and a watch with a few events.
use etcdops.Base.{
  String, false, List, Option, [], ◌∷◌, none, some, ◌≡◌, ◌≢◌, refl, ◌↔◌, arith, str_eq, eq_iff, All,
  ◌++◌,
}
use etcdops.Base.Int.{pos}
use etcdops.Kube.{Container, ok, Duration, zero_time}
use etcdops.Types.Cluster.{Cluster}
use etcdops.Webhook.{validate_update}
use etcdops.Printer.{Printable}
use etcdops.Console.{Event, EventType, Console, prints, waits_on, wait, wait_for}
use etcdops.Console.Waiting.{
  Waiting, tick, begin, spinner_at, read_event, Leads, here, then_step, reads, ticks,
}
use etcdops.Console.Waiting.Returns.{Shows, Waiting-returns}
use etcdops.Commands.{
  CreateParams, new_cluster, one_of_version_from_backup, UpdateParams, is_rolled_out,
  change_cluster, update_found, update_command, create_command, delete_command, is_created, is_gone,
}
use etcdops.Commands.Flags.{Heeds, Spared, change_cluster-Heeds}
use etcdops.Commands.Update.{Accepted, Delivers, change_cluster-Accepted, update_command-prints}
use etcdops.Tests.Clusters.{three, running}
use etcdops.Commands.Restore.{pod_of, named_backup, restoring, create_ignores_backup}

-- The world is what the watch will deliver.
abbrev pub desk : Console
desk = record {
  World = List Event;
  Error = String;
  is_not_found = λ e. false;
  Config = Unit {0};
  client_config = λ w. (ok tt, w);
  config_namespace = λ w. (ok "prod", w);
  connect = λ config w. (none, w);
  get = λ key w. (ok three, w);
  list_clusters = λ namespace w. (ok (three ∷ []), w);
  list_backups = λ namespace labels w. (ok [], w);
  create = λ c w. (ok c, w);
  update = λ c w. (ok c, w);
  delete = λ c w. (none, w);
  watch = λ w. (ok w, w);
}

abbrev to_version : String → UpdateParams
to_version v = record {
  size = pos 0;
  version = v;
  backup_creation_period = pos 0;
  backup_retention_period = pos 0;
}

abbrev hourly : UpdateParams
hourly = record (to_version "") { backup_creation_period = pos 3600000000000 }

abbrev rolled_out : Cluster
rolled_out = record three { status = record (three.status) { version = "3.5.1" } }

abbrev first_event : Event
first_event = record { event_type = EventType.added; object = some three }

abbrev later_events : List Event
later_events =
    record { event_type = EventType.bookmark; object = none }
    ∷ record { event_type = EventType.modified; object = some rolled_out }
    ∷ []

abbrev events : List Event
events = first_event ∷ later_events

waits_for_version :
    (update_command desk (to_version "3.5.1") "etcd" events).0
    ≡ prints (Printable.cluster rolled_out)
unfolding update_command update_found wait_for wait is_rolled_out
waits_for_version = refl

-- Without the version flag no event ends the wait.
hourly_waits : (update_command desk hourly "etcd" events).0 ≡ waits_on
unfolding update_command update_found wait_for wait is_rolled_out
hourly_waits = refl

update_command-prints_example :
    (rolled_out.status.version ≡ (to_version "3.5.1").version)
    × (rolled_out.metadata.name ≡ three.metadata.name)
    × (e : Event) × (e.object ≡ some rolled_out)
    × Delivers desk e
unfolding waits_for_version
update_command-prints_example =
    update_command-prints desk (to_version "3.5.1") "etcd" events waits_for_version

change_cluster-Accepted_example :
    (validate_update (change_cluster (to_version "3.5.2") three) (some three) ≡ none)
    ↔ Accepted (to_version "3.5.2") three
change_cluster-Accepted_example = change_cluster-Accepted (to_version "3.5.2") three

change_cluster-Heeds_example :
    Heeds hourly three (change_cluster hourly three) ↔ Spared hourly three
change_cluster-Heeds_example = change_cluster-Heeds hourly three

-- `create` waits until a cluster of the name runs, `delete` until one is deleted.
create_ends :
    (create_command desk
      (record {
        size = pos 3;
        from_backup = "";
        backup_creation_period = pos 1;
        backup_retention_period = pos 1;
      })
      "etcd"
      (some "3.5.1")
      events).0
    ≡ prints (Printable.cluster three)
unfolding create_command wait_for wait is_created
create_ends = refl

delete_waits : (delete_command desk "etcd" events).0 ≡ waits_on
unfolding delete_command wait is_gone
delete_waits = refl

-- The wait for the new version, when the clock has struck twice and the first event is read
abbrev awaited : Event → Option Cluster
awaited = is_rolled_out (to_version "3.5.1") "etcd"

abbrev seconds : Duration → String
seconds d = "1s"

abbrev struck : Waiting
struck =
    record (tick seconds zero_time (pos 2000000000)
      (tick seconds zero_time (pos 1000000000) (begin events))) {
        reader = read_event awaited first_event later_events;
      }

struck_lines : struck.lines ≡ "\r..  1s" ∷ "\r.   1s" ∷ []
unfolding tick begin spinner_at
struck_lines = refl

so_far : Leads seconds zero_time awaited (begin events) struck
unfolding tick begin
so_far =
    then_step
      (then_step (then_step here (ticks (pos 1000000000) refl)) (ticks (pos 2000000000) refl))
      (reads first_event later_events refl)

Waiting-returns_example :
    (((v : Waiting) × Leads seconds zero_time awaited struck v × (v.result ≡ some rolled_out))
      ↔ (wait awaited events ≡ some rolled_out))
    × Shows struck
Waiting-returns_example =
    Waiting-returns seconds zero_time awaited events struck (pos 3000000000) rolled_out so_far

-- `create --from-backup nightly etcd`
abbrev creation : CreateParams
creation = record {
  size = pos 3;
  from_backup = "";
  backup_creation_period = pos 1;
  backup_retention_period = pos 1;
}

abbrev restored : Cluster
restored = new_cluster (restoring creation "nightly") "etcd" "prod" ""

named : (s : String) → str_eq s "" ≡ false → s ≢ ""
named s h e = ground (arith, eq_iff s "")

create_ignores_backup_example :
    (one_of_version_from_backup (restoring creation "nightly") ("etcd" ∷ []) ≡ none)
    × All
        (λ (k : Container). k.image ≡ "quay.io/coreos/etcd:v")
        ((pod_of restored 0 (running 0).status).init_containers
          ++ (pod_of restored 0 (running 0).status).containers)
    × (pod_of (named_backup restored "weekly") 0 (running 0).status
        ≡ pod_of restored 0 (running 0).status)
create_ignores_backup_example =
    create_ignores_backup creation "etcd" "prod" "nightly" "weekly" restored 0 (running 0).status
      (named "nightly" refl) (named "weekly" refl) refl

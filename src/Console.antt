-- ===== src/Console.antt =====
-- pkg/cli/client.go: the client of the commands and the wait for an event. The API server, the
-- loading of a configuration and the watch are the parameter `Console`.
pub mod Waiting
use etcdops.Base.{String, Bool, true, false, List, [], ◌∷◌, Option, none, some}
use etcdops.Kube.{Answer, ok, err, Labels, NamespacedName}
use etcdops.Types.Cluster.{Cluster}
use etcdops.Types.Backup.{Backup}
use etcdops.Printer.{Printable}

pub data EventType : Type 0 where
  added modified deleted bookmark error : EventType

abbrev pub is_deleted : EventType → Bool
is_deleted EventType.deleted = true
is_deleted _ = false

-- `watch.Event`, where `none` is an object that is no cluster.
pub record Event : Type 0 where
  pub event_type : EventType
  pub object : Option Cluster

-- How a command ends: with an object that it prints, with nothing to say, with a message, with an
-- error of a library, in a wait that no event ends, or in a panic.
pub data Ended (E : Type 0) : Type 0 where
  prints : Printable → Ended E
  succeeds : Ended E
  complains : String → Ended E
  fails : E → Ended E
  waits_on : Ended E
  panics : Ended E

pub record Console : Type 1 where
  pub World : Type 0
  pub Error : Type 0
  pub is_not_found : Error → Bool
  pub Config : Type 0
  -- The loading of a client's configuration: `ClientConfig` and `Namespace`
  pub client_config : World → Answer Error Config × World
  pub config_namespace : World → Answer Error String × World
  -- `client.NewWithWatch`
  pub connect : Config → World → Option Error × World
  pub get : NamespacedName → World → Answer Error Cluster × World
  pub list_clusters : String → World → Answer Error (List Cluster) × World
  pub list_backups : String → Labels → World → Answer Error (List Backup) × World
  pub create : Cluster → World → Answer Error Cluster × World
  pub update : Cluster → World → Answer Error Cluster × World
  pub delete : Cluster → World → Option Error × World
  -- The events that the channel of a watch delivers
  pub watch : World → Answer Error (List Event) × World

-- The goroutine of `Wait`: the object of the first event that meets the condition. When the events
-- end, nothing is sent.
unfoldable pub wait : (Event → Option Cluster) → List Event → Option Cluster
wait condition [] = none
wait condition (e ∷ events) = elim (condition e) [ some c ↦ some c | none ↦ wait condition events ]

module _ (K : Console) where
  -- `NewClient`, which answers with the client's namespace
  unfoldable pub new_client : K.World → Answer K.Error String × K.World
  new_client w =
      let (a, w1) = K.client_config w in
      elim a [
        | err e ↦ (err e, w1)
        | ok config ↦
            let (b, w2) = K.config_namespace w1 in
            elim b [
              | err e ↦ (err e, w2)
              | ok namespace ↦
                  let (c, w3) = K.connect config w2 in
                  (elim c [ some e ↦ err e | none ↦ ok namespace ], w3)
            ]
      ]

  -- `Watch` and `Wait`. The error of `Watch` is not looked at, and its watcher is nil beside one.
  unfoldable pub wait_for : (Event → Option Cluster) → K.World → Ended K.Error × K.World
  unfolding wait
  wait_for condition w =
      let (a, w') = K.watch w in
      elim a [
        | err e ↦ (panics, w')
        | ok events ↦ (
          elim (wait condition events) [ some c ↦ prints (Printable.cluster c) | none ↦ waits_on ],
          w',
        )
      ]

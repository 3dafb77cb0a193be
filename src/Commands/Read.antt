-- ===== src/Commands/Read.antt =====
-- cmd/etcdops/get.go, list.go and backup.go: the commands that read, and which flags they heed.
use etcdops.Base.{String, [], ◌∷◌, Option, none, some, ◌≡◌, arith, inl, inr}
use etcdops.Kube.{Answer, ok, err, Labels}
use etcdops.Kube.Laws.{Answer-cases}
use etcdops.Types.Member.{cluster_label}
use etcdops.Printer.{Printable, cluster_list, backup_list, Printer, pretty_print}
use etcdops.Console.{Ended, Console, prints, fails, new_client}
use etcdops.Commands.{GlobalFlags, not_found}

-- `client.MatchingLabels`, if a cluster is named
unfoldable pub backup_labels : Option String → Labels
backup_labels none = []
backup_labels (some name) = (cluster_label, name) ∷ []

module _ (K : Console) where
  unfoldable pub get_command : String → K.World → Ended K.Error × K.World
  unfolding new_client
  get_command name w =
      let (a, w1) = new_client K w in
      elim a [
        | err e ↦ (fails e, w1)
        | ok namespace ↦
            let (b, w2) = K.get (record { name = name; namespace = namespace }) w1 in
            elim b [ err e ↦ (not_found K name e, w2) | ok c ↦ (prints (Printable.cluster c), w2) ]
      ]

  unfoldable pub list_command : GlobalFlags → K.World → Ended K.Error × K.World
  unfolding new_client
  list_command flags w =
      let (a, w1) = new_client K w in
      elim a [
        | err e ↦ (fails e, w1)
        | ok _ ↦
            let (b, w2) = K.list_clusters flags.namespace w1 in
            elim b [ err e ↦ (fails e, w2) | ok cs ↦ (prints (cluster_list cs), w2) ]
      ]

  unfoldable pub list_backups_command :
      GlobalFlags → Option String → K.World → Ended K.Error × K.World
  unfolding new_client backup_labels
  list_backups_command flags name w =
      let (a, w1) = new_client K w in
      elim a [
        | err e ↦ (fails e, w1)
        | ok _ ↦
            let (b, w2) = K.list_backups flags.namespace (backup_labels name) w1 in
            elim b [ err e ↦ (fails e, w2) | ok bs ↦ (prints (backup_list bs), w2) ]
      ]

  -- `return cli.PrettyPrint(obj, output)`: what a command that prints writes in the end
  unfoldable pub written :
      Printer K.Error → GlobalFlags → Ended K.Error → Option (Answer K.Error String)
  written P flags (prints p) = some (pretty_print P p flags.output)
  written P flags _ = none

-- A console whose client is in another namespace
abbrev pub in_namespace : Console → String → Console
in_namespace K namespace = record K { config_namespace = λ w. (ok namespace, w) }

-- How a command ends that shows what the server answers to its one call: with the object, or with
-- what it makes of the error, and in the world behind the call
abbrev pub Ends :
    {E W A : Type 0} → (A → Printable) → (E → Ended E) → Answer E A × W → Ended E × W → Type 0
Ends shows refuses (ok x, v) u = u ≡ (prints (shows x), v)
Ends shows refuses (err e, v) u = u ≡ (refuses e, v)

-- With a client, each of the three commands makes one call and shows the answer. The two that list
-- ask for the namespace of the flag, which is empty for all namespaces, and end alike in whatever
-- namespace the client is. `get` asks for its cluster in the namespace of the client.
pub list_command_namespace :
    (K : Console) (flags : GlobalFlags) (name : Option String) (cluster own n m : String)
    (w : K.World) {v : K.World}
    → new_client K w ≡ (ok own, v)
    → Ends cluster_list fails (K.list_clusters flags.namespace v) (list_command K flags w)
      × Ends backup_list fails
          (K.list_backups flags.namespace (backup_labels name) v)
          (list_backups_command K flags name w)
      × Ends Printable.cluster
          (not_found K cluster)
          (K.get (record { name = cluster; namespace = own }) v)
          (get_command K cluster w)
      × (list_command (in_namespace K n) flags w ≡ list_command (in_namespace K m) flags w)
      × (list_backups_command (in_namespace K n) flags name w
          ≡ list_backups_command (in_namespace K m) flags name w)
unfolding list_command list_backups_command get_command
list_command_namespace K flags name cluster own n m w {v} h = (
  elim (Answer-cases (K.list_clusters flags.namespace v).0) [
    | inl (x, p) ↦ ground arith
    | inr (e, p) ↦ ground arith
  ],
  elim (Answer-cases (K.list_backups flags.namespace (backup_labels name) v).0) [
    | inl (x, p) ↦ ground arith
    | inr (e, p) ↦ ground arith
  ],
  elim (Answer-cases (K.get (record { name = cluster; namespace = own }) v).0) [
    | inl (x, p) ↦ ground arith
    | inr (e, p) ↦ ground arith
  ],
  ground arith,
  ground arith,
)

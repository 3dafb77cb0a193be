-- ===== src/Tests/Admission.antt =====
-- The webhook on clusters of three members.
use etcdops.Base.{none, some, ◌≡◌, refl, ◌↔◌}
use etcdops.Base.Int.{pos, negsuc, rem_two}
use etcdops.Base.Text.{decimal_int, decimal}
use etcdops.Types.Cluster.{Cluster, ClusterPhase}
use etcdops.Webhook.{validate_create, validate_change, validate_update}
use etcdops.Webhook.History.{
  Odd, Admissible, History, validate_create-Odd, validate_update-Admissible, History-keeps,
}
use etcdops.Tests.Clusters.{three}

abbrev updating : Cluster
updating = record three { status = record (three.status) { phase = ClusterPhase.updating } }

abbrev newer : Cluster
newer = record three { spec = record (three.spec) { version = "3.5.2" } }

refuses_two :
    validate_create (record three { spec = record (three.spec) { size = pos 2 } })
    ≡ some "size of cluster should be odd, got 2"
unfolding validate_create rem_two decimal_int decimal
refuses_two = refl

accepts_minus_three :
    validate_create (record three { spec = record (three.spec) { size = negsuc 2 } }) ≡ none
unfolding validate_create rem_two
accepts_minus_three = refl

refuses_version :
    validate_update newer (some updating)
    ≡ some "unable to change cluster version on updating cluster"
unfolding validate_update validate_change
refuses_version = refl

validate_create-Odd_example : (validate_create three ≡ none) ↔ Odd (pos 3)
validate_create-Odd_example = validate_create-Odd three

validate_update-Admissible_example :
    (validate_update newer (some updating) ≡ none) ↔ Admissible newer updating
validate_update-Admissible_example = validate_update-Admissible newer updating

three_created : validate_create three ≡ none
unfolding validate_create rem_two
three_created = refl

newer_accepted : validate_update newer (some three) ≡ none
unfolding validate_update validate_change
newer_accepted = refl

History-keeps_example : Odd (pos 3) × (pos 3 ≡ pos 3) × (newer.spec.backup ≡ three.spec.backup)
History-keeps_example = History-keeps (
    History.reported updating.status
      (History.updated newer (History.created three_created) newer_accepted))

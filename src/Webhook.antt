-- ===== src/Webhook.antt =====
-- api/v1alpha1/cluster_webhook.go: which clusters and changes of clusters are admitted. A validation
-- returns its message, or `none` for the nil error.
pub mod History
use etcdops.Base.{String, ◌<>◌, Bool, not, ◌&&◌, Option, some, none, str_eq, if◌then◌else◌}
use etcdops.Base.Int.{pos, beq_ℤ, rem_two}
use etcdops.Base.Text.{decimal_int}
use etcdops.Types.Cluster.{Cluster, is_updating}

unfoldable pub validate_create : Cluster → Option String
unfolding rem_two
validate_create r =
    if beq_ℤ (rem_two r.spec.size) (pos 0)
    then some ("size of cluster should be odd, got " <> decimal_int r.spec.size)
    else none

-- The checks on two clusters, in order
unfoldable pub validate_change : Cluster → Cluster → Option String
validate_change r old =
    if is_updating old.status.phase && not (str_eq r.spec.version old.spec.version)
    then some "unable to change cluster version on updating cluster"
    else if not (str_eq old.spec.backup r.spec.backup)
    then some "unable to restore working cluster from backup, please create new one"
    else if not (beq_ℤ old.spec.size r.spec.size)
    then some "changing cluster size currently not supported"
    else none

-- `old` is `none` if the object is of another type.
unfoldable pub validate_update : Cluster → Option Cluster → Option String
unfolding validate_change
validate_update r none = some "updated object is not cluster"
validate_update r (some old) = validate_change r old

unfoldable pub validate_delete : Cluster → Option String
validate_delete r = none

-- ===== src/Tests/Clusters.antt =====
-- The cluster controller at a cluster of three members.
use etcdops.Base.{Bool, ℕ, ◌≤◌, false, List, [], ◌∷◌, ◌≡◌, refl, ◌⊎◌, inl, count, arith, Memᴰ}
use etcdops.Base.Int.{pos, to_int, ◌-ℤ◌}
use etcdops.Base.Text.{decimal}
use etcdops.Controller.{skip_update, requeue}
use etcdops.Types.Backup.{label}
use etcdops.Kube.{
  done, panic, Frame, NamespacedName, Time, Finalizer, zero_time, put_self, pure, ◌>>=◌, ◌>>◌,
}
use etcdops.Types.Cluster.{
  Cluster, ClusterPhase, cleanup_secret_finalizer, get_member, get_member_name, dependent_meta,
  should_update, get_service, get_ca_certificate, get_ca_issuer, get_backup_schedule,
}
use etcdops.Types.Member.{Member, MemberPhase, is_creating, cluster_label}
use etcdops.Env.{proceed}
use etcdops.ClusterController.{
  start_phase, reconcile, reconcile_body, ensure_backup_schedule, ensure_service, ensure_ca,
}
use etcdops.ClusterController.Keeps.{SameSpec}
use etcdops.ClusterController.Untouched.{SameClusters}
use etcdops.ClusterController.Writes.{behind_steps, WritesStatus, reconcile-WritesStatus}
use etcdops.Tests.Memory.Clusters.{memory-ClusterStore}
use etcdops.ClusterController.Version.{
  versioned, recovered, reconcile_body_drops_update, reconcile_body_settles,
}
use etcdops.ClusterController.Update.{update_members}
use etcdops.ClusterController.Update.Rolling.{ask_version, Rolls, AllSettled, update_members-Rolls}
use etcdops.ClusterController.Cleanup.{cleanup_secrets}
use etcdops.ClusterController.Cleanup.Order.{Holds, Releases, cleanup_secrets-Releases}
use etcdops.ClusterController.Members.{ensure_member, ensure_members, cluster_phase}
use etcdops.ClusterController.Observe.{observe}
use etcdops.ClusterController.Phase.{
  assess, any_expires, has_failed, is_healthy, Quorum, ensure_members_lem, ensure_members-Quorum,
}
use etcdops.ClusterController.Repair.{repair_members, find_failed, repair_candidate, mark_broken}
use etcdops.ClusterController.Panic.{ensure_members_panics}
use etcdops.ClusterController.Repair.Liveness.{repair_members-Marks}
use etcdops.ClusterController.Repair.Safety.{clock_read, Marks, repair_members_safe}
use etcdops.Tests.Memory.{Store, broken_server, memory, memory-IsLawful, empty_store}

abbrev pub three : Cluster
three = record {
  metadata = record (dependent_meta "etcd" "prod") {
    finalizers = Finalizer.delete_dependents ∷ cleanup_secret_finalizer ∷ [];
  };
  spec = record {
    version = "3.5.1";
    size = pos 3;
    backup = "";
    backup_creation_period = pos 86400000000000;
    backup_retention_period = pos 604800000000000;
  };
  status = record { phase = ClusterPhase.running; version = "3.5.0"; certificate_expires = false };
}

-- A member that runs, and one that failed at an instant
abbrev pub running : ℕ → Member
running i = record (get_member three i) {
  status = record {
    version = "3.5.0";
    phase = MemberPhase.running;
    failed_time = zero_time;
    certificate_expires = false;
  };
}

abbrev failed : Time → ℕ → Member
failed t i = record (get_member three i) {
  status = record {
    version = "3.5.0";
    phase = MemberPhase.failed;
    failed_time = t;
    certificate_expires = false;
  };
}

-- A store in which the cluster has its certificate
abbrev pub prepared_store : Store
prepared_store = record empty_store { certificates = get_ca_certificate three "issuer" ∷ [] }

abbrev frame : List Member → Frame memory.World Cluster
frame ms = record { world = record prepared_store { members = ms }; self = three }

-- The second member failed long ago.
abbrev one_failed : Frame memory.World Cluster
one_failed = frame (running 0 ∷ failed (pos 5) 1 ∷ running 2 ∷ [])

-- What a run of the controller has to see through
unfoldable pub evaluation : Unit {0}
unfolding reconcile ensure_members repair_members update_members cleanup_secrets ensure_member
    get_member get_member_name decimal skip_update requeue cluster_phase to_int is_creating
    find_failed repair_candidate ◌-ℤ◌ should_update get_service get_ca_certificate get_ca_issuer
    get_backup_schedule any_expires assess ensure_backup_schedule ensure_service ensure_ca
    reconcile_body label observe
evaluation = tt

one_failed_phase :
    (ensure_members memory one_failed).1.self.status.phase ≡ ClusterPhase.minor_failure
unfolding evaluation
one_failed_phase = refl

-- The failed member is marked, and no other.
one_failed_repair :
    (repair_members memory one_failed).1.world.members
    ≡ running 0 ∷ mark_broken (failed (pos 5) 1) ∷ running 2 ∷ []
unfolding evaluation
one_failed_repair = refl

-- The roll-out begins with the first member.
all_running : Frame memory.World Cluster
all_running = frame (running 0 ∷ running 1 ∷ running 2 ∷ [])

update_begins :
    (update_members memory all_running).1.world.members
    ≡ ask_version three (running 0) ∷ running 1 ∷ running 2 ∷ []
unfolding evaluation all_running
update_begins = refl

ensure_members_lem_example :
    ensure_members memory one_failed
    ≡ (do ms ← observe memory 3 0; put_self (assess three ms); pure (proceed memory)) one_failed
ensure_members_lem_example = ensure_members_lem memory memory-IsLawful one_failed

-- The server refuses to create the second member.
abbrev refusing : Frame memory.World Cluster
refusing = record {
  world = record prepared_store { members = running 0 ∷ []; refused = "etcd-1" ∷ [] };
  self = three;
}

ensure_members_panics_example : ensure_members memory refusing ≡ (panic, refusing)
unfolding evaluation
ensure_members_panics_example =
    ensure_members_panics memory memory-IsLawful 1 refusing refusing refusing {ms = running 0 ∷ []}
      {e = broken_server} (omega arith) refl refl

ensure_members-Quorum_example :
    (ms : List Member) × ((observe memory 3 0 one_failed).0 ≡ done ms)
    × Quorum
        (count has_failed ms)
        (count is_creating ms)
        (count is_healthy ms)
        (ensure_members memory one_failed).1.self.status.phase
unfolding evaluation
ensure_members-Quorum_example =
    ensure_members-Quorum memory memory-IsLawful one_failed {r = proceed memory} (omega arith) refl

repair_members_safe_example :
    ((j : ℕ) × (j ≤ 3)
      × ((repair_members memory one_failed).1
          ≡ (observe memory j 0 (clock_read memory one_failed)).1))
    ⊎ Marks memory one_failed (repair_members memory one_failed).1
repair_members_safe_example = repair_members_safe memory one_failed (omega arith)

repair_members-Marks_example : Marks memory one_failed (repair_members memory one_failed).1
unfolding evaluation
repair_members-Marks_example =
    repair_members-Marks memory one_failed one_failed {ms = one_failed.world.members}
      {x = failed (pos 5) 1} (omega arith) refl ((refl, refl), ((refl, refl), ((refl, refl), tt)))
      (Memᴰ.tail (Memᴰ.head refl)) refl (omega arith) (omega arith)

update_members-Rolls_example :
    Rolls memory 3 0 one_failed
      (update_members memory one_failed).0
      (update_members memory one_failed).1
update_members-Rolls_example = update_members-Rolls memory memory-IsLawful one_failed

abbrev key : NamespacedName
key = record { name = "etcd"; namespace = "prod" }

abbrev known : Store
known = record prepared_store {
  clusters = three ∷ [];
  members = running 0 ∷ failed (pos 5) 1 ∷ failed (pos 7) 2 ∷ [];
}

-- The one cluster in memory behind a pass that finds two of its members failed
pass_changes_status :
    (reconcile memory "issuer" key known).1.clusters
    ≡ record three {
      status = record {
        phase = ClusterPhase.failed;
        version = "3.5.1";
        certificate_expires = false;
      };
    }
      ∷ []
unfolding evaluation start_phase
pass_changes_status = refl

reconcile-WritesStatus_example :
    SameClusters memory memory-ClusterStore known (behind_steps memory "issuer" three known).world
    × SameSpec three (behind_steps memory "issuer" three known).self
    × ((reconcile memory "issuer" key known).1
        ≡ (memory.clusters.update_status
            (behind_steps memory "issuer" three known).self
            (behind_steps memory "issuer" three known).world).1)
    × WritesStatus memory memory-ClusterStore key
        (behind_steps memory "issuer" three known).self
        known
        (reconcile memory "issuer" key known).1
reconcile-WritesStatus_example =
    reconcile-WritesStatus memory memory-ClusterStore memory-IsLawful "issuer" key known known three
      refl refl

-- Two members have failed while the version of the spec is new.
abbrev two_failed : Frame memory.World Cluster
two_failed = record { world = known; self = three }

abbrev two_failed_prepared : Frame memory.World Cluster
two_failed_prepared = record { world = known; self = assess three known.members }

reconcile_body_drops_update_example :
    (reconcile_body memory "issuer" two_failed ≡ (
      done (proceed memory),
      record two_failed_prepared { self = versioned two_failed_prepared.self },
    ))
    × ((due : Bool) → should_update (recovered due (versioned two_failed_prepared.self)) ≡ due)
unfolding evaluation
reconcile_body_drops_update_example =
    reconcile_body_drops_update memory "issuer" memory-IsLawful two_failed two_failed_prepared refl
      (inl refl)

-- Every member runs the new version.
abbrev settled : ℕ → Member
settled i = record (get_member three i) {
  status = record {
    version = "3.5.1";
    phase = MemberPhase.running;
    failed_time = zero_time;
    certificate_expires = false;
  };
}

abbrev all_settled : Frame memory.World Cluster
all_settled = frame (settled 0 ∷ settled 1 ∷ settled 2 ∷ [])

reconcile_body_settles_example :
    (h : Frame memory.World Cluster) × AllSettled memory 0 3 all_settled h
unfolding evaluation
reconcile_body_settles_example =
    reconcile_body_settles memory "issuer" memory-IsLawful all_settled all_settled refl refl refl

abbrev dying : Frame memory.World Cluster
dying = record {
  world = record empty_store {
    clusters = three ∷ [];
    secrets =
        record {
          metadata = record (dependent_meta "etcd-ca" "prod") {
            labels = (cluster_label, "etcd") ∷ [];
          };
        }
        ∷ [];
  };
  self = record three {
    metadata = record (three.metadata) { finalizers = cleanup_secret_finalizer ∷ [] };
  };
}

cleanup_removes : (cleanup_secrets memory dying).1.world.secrets ≡ []
unfolding evaluation
cleanup_removes = refl

cleanup_secrets-Releases_example :
    Holds memory dying (cleanup_secrets memory dying)
    ⊎ Releases memory dying (cleanup_secrets memory dying)
cleanup_secrets-Releases_example = cleanup_secrets-Releases memory memory-IsLawful dying

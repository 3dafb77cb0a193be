-- ===== src/Startup.antt =====
-- main.go, and the `SetupWithManager` of the four controllers. The manager of controller-runtime and
-- the clients of object storage are the parameter `Runtime`.
use etcdops.Base.{String, Bool, List, [], ◌∷◌, Option, none, some}
use etcdops.Kube.{Answer, ok, err}

-- The kinds of objects that a controller watches
pub data Kind : Type 0 where
  cluster member backup backup_schedule service certificate issuer pod volume_claim : Kind

-- `For` and `Owns` of a controller's builder
pub record Watches : Type 0 where
  pub watched : Kind
  pub owned : List Kind

unfoldable pub cluster_watches : Watches
cluster_watches = record {
  watched = Kind.cluster;
  owned = Kind.member ∷ Kind.backup_schedule ∷ Kind.service ∷ Kind.certificate ∷ Kind.issuer ∷ [];
}

unfoldable pub member_watches : Watches
member_watches = record {
  watched = Kind.member;
  owned = Kind.pod ∷ Kind.volume_claim ∷ Kind.certificate ∷ [];
}

unfoldable pub backup_watches : Watches
backup_watches = record { watched = Kind.backup; owned = [] }

unfoldable pub schedule_watches : Watches
schedule_watches = record { watched = Kind.backup_schedule; owned = Kind.backup ∷ [] }

-- The variables of the flags
pub record Flags : Type 0 where
  pub metrics_addr : String
  pub enable_leader_election : Bool
  pub probe_addr : String
  pub cluster_issuer : String
  pub s3_bucket : String
  pub s3_prefix : String
  pub s3_endpoint : String

-- `ctrl.Options`, as far as the flags decide them
pub record Options : Type 0 where
  pub metrics_bind_address : String
  pub health_probe_bind_address : String
  pub leader_election : Bool

-- A reconciler beside the client and the scheme, which all of them have
pub data Reconciler (Storage : Type 0) : Type 0 where
  member_reconciler : Reconciler Storage
  cluster_reconciler : String → Reconciler Storage
  backup_reconciler : Storage → String → String → Reconciler Storage
  schedule_reconciler : Reconciler Storage

pub record Runtime : Type 1 where
  pub World : Type 0
  pub Error : Type 0
  pub Config : Type 0
  pub Session : Type 0
  pub Storage : Type 0
  -- `GetConfigOrDie`, which ends the process with an error
  pub get_config : World → Answer Error Config × World
  pub new_manager : Config → Options → World → Option Error × World
  -- `session.NewSession`, where a failure leaves a nil pointer
  pub new_session : String → World → Answer Error Session × World
  -- `s3manager.NewUploader` and `s3.New`, of a pointer that may be nil, where `none` is a panic
  pub new_storage : Option Session → Option Storage
  -- `Complete` of a builder
  pub complete : Watches → Reconciler Storage → World → Option Error × World
  pub setup_webhook : World → Option Error × World
  pub add_healthz_check : World → Option Error × World
  pub add_readyz_check : World → Option Error × World
  -- `Start`, which returns when the process is told to end
  pub start : World → Option Error × World

-- How the process ends
pub data Exit : Type 0 where
  returns exits_with_one panics : Exit

module _ (R : Runtime) where
  -- A call whose error ends the process
  abbrev pub or_exit :
      (R.World → Option R.Error × R.World) → (R.World → Exit × R.World) → R.World → Exit × R.World
  or_exit step next w =
      let (e, w') = step w in elim e [ some x ↦ (exits_with_one, w') | none ↦ next w' ]

  -- From the webhook on
  unfoldable pub serve : R.World → Exit × R.World
  serve = or_exit R.setup_webhook (
      or_exit R.add_healthz_check
        (or_exit R.add_readyz_check (or_exit R.start (λ w. (returns, w)))))

  -- The last two controllers. The fields of the backup controller are made before its set-up.
  unfoldable pub setup_backups : Flags → Option R.Session → R.World → Exit × R.World
  unfolding backup_watches schedule_watches serve
  setup_backups flags s3_session w = elim (R.new_storage s3_session) [
    | none ↦ (panics, w)
    | some storage ↦
        or_exit
          (R.complete backup_watches (backup_reconciler storage flags.s3_bucket flags.s3_prefix))
          (or_exit (R.complete schedule_watches schedule_reconciler) serve) w
  ]

  -- The set-up of the controllers
  unfoldable pub setup_controllers : Flags → Option R.Session → R.World → Exit × R.World
  unfolding cluster_watches member_watches setup_backups
  setup_controllers flags s3_session = or_exit (R.complete member_watches member_reconciler) (
      or_exit (R.complete cluster_watches (cluster_reconciler flags.cluster_issuer))
        (setup_backups flags s3_session))

  unfoldable pub manager_options : Flags → Options
  manager_options flags = record {
    metrics_bind_address = flags.metrics_addr;
    health_probe_bind_address = flags.probe_addr;
    leader_election = flags.enable_leader_election;
  }

  -- The error of `NewSession` is only logged.
  unfoldable pub main : Flags → R.World → Exit × R.World
  unfolding manager_options setup_controllers
  main flags w =
      let (a, w1) = R.get_config w in
      elim a [
        | err e ↦ (exits_with_one, w1)
        | ok config ↦
            or_exit (R.new_manager config (manager_options flags))
              (λ w2.
                let (b, w3) = R.new_session flags.s3_endpoint w2 in
                setup_controllers flags (elim b [ ok s ↦ some s | err e ↦ none ]) w3)
              w1
      ]

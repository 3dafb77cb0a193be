-- ===== src/Tests/Startup.antt =====
-- A start of the process, with a session of object storage and without one.
use etcdops.Base.{ℕ, suc, String, false, Option, none, ◌≡◌, refl}
use etcdops.Kube.{ok, err}
use etcdops.Startup.{Runtime, Flags, returns, panics, main, serve, setup_backups, setup_controllers}

-- Every call counts; a client of object storage cannot be made of a nil session.
abbrev count : ℕ → Option String × ℕ
count w = (none, suc w)

abbrev counting : Runtime
counting = record {
  World = ℕ;
  Error = String;
  Config = Unit {0};
  Session = Unit {0};
  Storage = Unit {0};
  get_config = λ w. (ok tt, suc w);
  new_manager = λ config options. count;
  new_session = λ endpoint w. (ok tt, suc w);
  new_storage = λ s. s;
  complete = λ watches reconciler. count;
  setup_webhook = count;
  add_healthz_check = count;
  add_readyz_check = count;
  start = count;
}

abbrev flags : Flags
flags = record {
  metrics_addr = ":8080";
  enable_leader_election = false;
  probe_addr = ":8081";
  cluster_issuer = "issuer";
  s3_bucket = "backups";
  s3_prefix = "";
  s3_endpoint = "";
}

-- Eleven calls, the last of which is the run of the manager
main_serves : main counting flags 0 ≡ (returns, 11)
unfolding main setup_controllers setup_backups serve
main_serves = refl

-- Without a session the process goes on, and panics behind the set-up of two controllers.
abbrev without_session : Runtime
without_session = record counting { new_session = λ endpoint w. (err "no credentials", suc w) }

main_panics : main without_session flags 0 ≡ (panics, 5)
unfolding main setup_controllers setup_backups serve
main_panics = refl

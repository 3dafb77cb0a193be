-- ===== src/Tests/Memory.antt =====
-- An environment in memory: lists of members, secrets and backups, a clock that stands still, and
-- for all else a server that creates and finds whatever it is asked for.
pub mod BackupList
pub mod Calls
pub mod Clusters
pub mod Faultless
pub mod Stored
use etcdops.Base.{
  ℕ, String, ◌<>◌, Bool, true, false, not, ◌&&◌, ◌||◌, List, [], ◌∷◌, ◌++◌, Option, none, some, ◌≡◌,
  refl, str_eq, if◌then◌else◌, arith, ◌==◌,
}
use etcdops.Base.Int.{pos, beq_ℤ}
use etcdops.Kube.{
  Answer, ok, err, CtrlResult, no_result, ObjectMeta, Finalizer, Labels, Time, Secret, Certificate,
  Pod, unchanged, created,
}
use etcdops.Types.Cluster.{Cluster}
use etcdops.Types.Member.{Member}
use etcdops.Types.Backup.{Backup, label}
use etcdops.Env.{Client, Etcd, EtcdMember, Env, IsLawful}

pub data Fault : Type 0 where
  not_found conflict broken_server : Fault

pub record Store : Type 0 where
  pub clock : Time
  -- names that the server refuses to create members under
  pub refused : List String
  pub clusters : List Cluster
  pub members : List Member
  pub secrets : List Secret
  pub backups : List Backup
  pub certificates : List Certificate
  pub pods : List Pod
  pub etcd_members : List EtcdMember

abbrev same_key : String → String → ObjectMeta → Bool
same_key name namespace m = str_eq m.name name && str_eq m.namespace namespace

abbrev has_labels : Labels → Labels → Bool
has_labels [] labels = true
has_labels ((k, v) ∷ wanted) labels = str_eq (label k labels) v && has_labels wanted labels

module _ {A : Type 0} (meta : A → ObjectMeta) where
  abbrev find : String → String → List A → Option A
  find name namespace [] = none
  find name namespace (x ∷ xs) =
      let rest = find name namespace xs in if same_key name namespace (meta x) then some x else rest

  abbrev replace : A → List A → List A
  replace a [] = []
  replace a (x ∷ xs) =
      let rest = replace a xs in
      if same_key (meta a).name (meta a).namespace (meta x) then a ∷ xs else x ∷ rest

  abbrev erase : A → List A → List A
  erase a [] = []
  erase a (x ∷ xs) =
      let rest = erase a xs in
      if same_key (meta a).name (meta a).namespace (meta x) then xs else x ∷ rest

  abbrev select : String → Labels → List A → List A
  select namespace labels [] = []
  select namespace labels (x ∷ xs) =
      let rest = select namespace labels xs in
      if str_eq (meta x).namespace namespace && has_labels labels (meta x).labels
      then x ∷ rest
      else rest

abbrev contains : List String → String → Bool
contains [] s = false
contains (x ∷ xs) s = str_eq x s || contains xs s

-- `with_status a b` is `a` with the status of `b`.
module _ {A : Type 0} (meta : A → ObjectMeta) (all : Store → List A) (put : List A → Store → Store)
    (with_status : A → A → A) where
  abbrev write : (A → A) → A → Store → Answer Fault A × Store
  write merge a s = elim (find meta (meta a).name (meta a).namespace (all s)) [
    | none ↦ (err not_found, s)
    | some old ↦ (ok (merge old), put (replace meta (merge old) (all s)) s)
  ]

  abbrev add : A → Store → Answer Fault A × Store
  add a s =
      if contains s.refused (meta a).name
      then (err broken_server, s)
      else (ok a, put (all s ++ (a ∷ [])) s)

  abbrev stored : Client Store Fault A
  stored = record {
    get = λ key s. elim (find meta key.name key.namespace (all s)) [
      | none ↦ (err not_found, s)
      | some a ↦ (ok a, s)
    ];
    list = λ namespace labels s. (ok (select meta namespace labels (all s)), s);
    create = add;
    update = λ a. write (λ old. with_status a old) a;
    update_status = λ a. write (λ old. with_status old a) a;
    delete = λ a s. elim (find meta (meta a).name (meta a).namespace (all s)) [
      | none ↦ (some not_found, s)
      | some _ ↦ (none, put (erase meta a (all s)) s)
    ];
    create_or_update = λ a mutate s. elim (find meta (meta a).name (meta a).namespace (all s)) [
      | some old ↦ (elim (mutate tt) [ none ↦ ok (old, unchanged) | some e ↦ err e ], s)
      | none ↦ let (x, t) = add a s in (elim x [ ok b ↦ ok (b, created) | err e ↦ err e ], t)
    ];
  }

-- A server that has every object that it is asked to make sure of, and no other
abbrev echo : {A : Type 0} → Client Store Fault A
echo = record {
  get = λ key s. (err not_found, s);
  list = λ namespace labels s. (ok [], s);
  create = λ a s. (ok a, s);
  update = λ a s. (ok a, s);
  update_status = λ a s. (ok a, s);
  delete = λ a s. (some not_found, s);
  create_or_update = λ a mutate s. (ok (a, unchanged), s);
}

abbrev remove_id : ℕ → List EtcdMember → List EtcdMember
remove_id id [] = []
remove_id id (x ∷ xs) = let rest = remove_id id xs in if x.id == id then rest else x ∷ rest

abbrev memory_etcd : Etcd Store Fault
memory_etcd = record {
  Connection = Unit {0};
  Snapshot = String;
  connect = λ endpoints s. (ok tt, s);
  member_list = λ c s. (ok s.etcd_members, s);
  member_remove = λ c id s. (none, record s { etcd_members = remove_id id s.etcd_members });
  member_add = λ c urls s.
      (none, record s { etcd_members = s.etcd_members ++ (record { id = 99; name = "" } ∷ []) });
  snapshot = λ c s. (ok (some "snapshot"), s);
}

abbrev is_not_found : Fault → Bool
is_not_found not_found = true
is_not_found _ = false

abbrev is_conflict : Fault → Bool
is_conflict conflict = true
is_conflict _ = false

abbrev ignore_not_found : Fault → Option Fault
ignore_not_found not_found = none
ignore_not_found e = some e

abbrev append_error : Option Fault → Option Fault → Option Fault
append_error none e = e
append_error (some e) _ = some e

abbrev is_zero : CtrlResult → Bool
is_zero r = not r.requeue && beq_ℤ r.requeue_after (pos 0)

abbrev same_finalizer : Finalizer → Finalizer → Bool
same_finalizer Finalizer.delete_dependents Finalizer.delete_dependents = true
same_finalizer (Finalizer.named a) (Finalizer.named b) = str_eq a b
same_finalizer _ _ = false

abbrev has_finalizer : List Finalizer → Finalizer → Bool
has_finalizer [] x = false
has_finalizer (y ∷ ys) x = same_finalizer y x || has_finalizer ys x

abbrev without : List Finalizer → Finalizer → List Finalizer
without [] x = []
without (y ∷ ys) x = let rest = without ys x in if same_finalizer y x then rest else y ∷ rest

abbrev pub memory : Env
memory = record {
  World = Store;
  Error = Fault;
  is_not_found = is_not_found;
  is_conflict = is_conflict;
  ignore_not_found = ignore_not_found;
  append_error = append_error;
  is_zero = is_zero;
  now = λ s. (s.clock, s);
  set_controller_reference = λ kind owner m. ok m;
  contains_finalizer = λ m. has_finalizer m.finalizers;
  remove_finalizer = λ m x. record m { finalizers = without m.finalizers x };
  clusters =
      stored (λ c. c.metadata) (λ s. s.clusters) (λ l s. record s { clusters = l })
        (λ a b. record a { status = b.status });
  members =
      stored (λ c. c.metadata) (λ s. s.members) (λ l s. record s { members = l })
        (λ a b. record a { status = b.status });
  backups =
      stored (λ c. c.metadata) (λ s. s.backups) (λ l s. record s { backups = l })
        (λ a b. record a { status = b.status });
  backup_schedules = echo;
  services = echo;
  certificates =
      stored (λ c. c.metadata) (λ s. s.certificates) (λ l s. record s { certificates = l })
        (λ a b. a);
  issuers = echo;
  pods = stored (λ c. c.metadata) (λ s. s.pods) (λ l s. record s { pods = l }) (λ a b. a);
  pvcs = echo;
  secrets = stored (λ c. c.metadata) (λ s. s.secrets) (λ l s. record s { secrets = l }) (λ a b. a);
  etcd = memory_etcd;
  upload = λ bucket key body s. (ok (bucket <> ("/" <> key)), s);
  delete_object = λ bucket key s. (none, s);
}

memory-is_zero : (r : CtrlResult) → is_zero r ≡ true → r ≡ no_result
memory-is_zero r h = ground arith

memory-ignore_not_found :
    (e : Fault) → ignore_not_found e ≡ (if is_not_found e then none else some e)
memory-ignore_not_found not_found = refl
memory-ignore_not_found conflict = refl
memory-ignore_not_found broken_server = refl

pub memory-IsLawful : IsLawful memory
memory-IsLawful = record {
  is_zero_iff = memory-is_zero;
  is_zero_no_result = refl;
  ignore_not_found_lem = memory-ignore_not_found;
  append_nil = refl;
}

abbrev pub empty_store : Store
empty_store = record {
  clock = pos 1000000000000;
  refused = [];
  clusters = [];
  members = [];
  secrets = [];
  backups = [];
  certificates = [];
  pods = [];
  etcd_members = [];
}

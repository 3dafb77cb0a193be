-- ===== src/Env.antt =====
-- What the controllers call and the repository does not implement, as parameters: the API server
-- behind the client, the clock, etcd's own client, object storage, and helpers of other libraries.
-- `IsLawful` states what the controllers rely on, as those libraries document it.
pub mod Clusters
pub mod Store
use etcdops.Base.{
  ℕ, String, Bool, true, false, not, ◌||◌, List, Option, none, some, ◌≡◌, if◌then◌else◌,
}
use etcdops.Kube.{
  Answer, OperationResult, CtrlResult, no_result, Return, Action, pure, ◌>>=◌, ObjectMeta,
  Finalizer, Labels, NamespacedName, Time, Certificate, Issuer, Service, VolumeClaim, Pod, Secret,
}
use etcdops.Types.Cluster.{Cluster}
use etcdops.Types.Member.{Member}
use etcdops.Types.Backup.{Backup, BackupSchedule}

-- The typed calls of `client.Client`. A call that succeeds answers with the object that the server
-- holds now, which the library writes over the caller's object.
pub record Client (W E A : Type 0) : Type 0 where
  pub get : NamespacedName → W → Answer E A × W
  pub list : String → Labels → W → Answer E (List A) × W
  pub create : A → W → Answer E A × W
  pub update : A → W → Answer E A × W
  pub update_status : A → W → Answer E A × W
  pub delete : A → W → Option E × W
  -- `controllerutil.CreateOrUpdate`, with the function that changes the object in between
  pub create_or_update : A → (Unit {0} → Option E) → W → Answer E (A × OperationResult) × W

-- The kinds of objects that own others, as the scheme knows them.
pub data OwnerKind : Type 0 where
  cluster member : OwnerKind

-- An entry of etcd's member list.
pub record EtcdMember : Type 0 where
  pub id : ℕ
  pub name : String

-- etcd's client, made from the endpoints of a cluster.
pub record Etcd (W E : Type 0) : Type 1 where
  pub Connection : Type 0
  pub Snapshot : Type 0
  pub connect : List String → W → Answer E Connection × W
  pub member_list : Connection → W → Answer E (List EtcdMember) × W
  pub member_remove : Connection → ℕ → W → Option E × W
  pub member_add : Connection → List String → W → Option E × W
  -- the stream is a pointer
  pub snapshot : Connection → W → Answer E (Option Snapshot) × W

pub record Env : Type 1 where
  pub World : Type 0
  pub Error : Type 0
  pub is_not_found : Error → Bool
  pub is_conflict : Error → Bool
  -- `client.IgnoreNotFound`, of an error
  pub ignore_not_found : Error → Option Error
  -- `multierr.Append`
  pub append_error : Option Error → Option Error → Option Error
  -- `ctrl.Result.IsZero`
  pub is_zero : CtrlResult → Bool
  pub now : World → Time × World
  pub set_controller_reference : OwnerKind → ObjectMeta → ObjectMeta → Answer Error ObjectMeta
  pub contains_finalizer : ObjectMeta → Finalizer → Bool
  pub remove_finalizer : ObjectMeta → Finalizer → ObjectMeta
  pub clusters : Client World Error Cluster
  pub members : Client World Error Member
  pub backups : Client World Error Backup
  pub backup_schedules : Client World Error BackupSchedule
  pub services : Client World Error Service
  pub certificates : Client World Error Certificate
  pub issuers : Client World Error Issuer
  pub pods : Client World Error Pod
  pub pvcs : Client World Error VolumeClaim
  pub secrets : Client World Error Secret
  pub etcd : Etcd World Error
  -- `s3manager.Uploader.UploadWithContext`, from bucket, key and body to the location, and
  -- `s3.DeleteObjectWithContext`
  pub upload : String → String → etcd.Snapshot → World → Answer Error String × World
  pub delete_object : String → String → World → Option Error × World

pub record IsLawful (V : Env) : Type 0 where
  -- `IsZero`: "returns true if this result is empty"
  pub is_zero_iff : (r : CtrlResult) → V.is_zero r ≡ true → r ≡ no_result
  pub is_zero_no_result : V.is_zero no_result ≡ true
  -- `IgnoreNotFound`: "returns nil on NotFound errors"
  pub ignore_not_found_lem :
      (e : V.Error) → V.ignore_not_found e ≡ (if V.is_not_found e then none else some e)
  -- `Append`: "appends the given errors together. Either value may be nil."
  pub append_nil : V.append_error none none ≡ none

module _ (V : Env) where
  abbrev pub Ret : Type 0
  Ret = Return V.Error

  -- `return ctrl.Result{}, nil`
  abbrev pub proceed : Ret
  proceed = record { result = no_result; error = none }

  abbrev pub failing : Option V.Error → Ret
  failing e = record { result = no_result; error = e }

  abbrev pub is_some : Option V.Error → Bool
  is_some none = false
  is_some (some e) = true

  -- `err != nil || !result.IsZero()`
  abbrev pub returns_early : Ret → Bool
  returns_early r = is_some r.error || not (V.is_zero r.result)

  -- `if result, err := step; err != nil || !result.IsZero() { return result, err }`, then the rest
  abbrev pub or_return :
      {S : Type 0} → Action V.World S Ret → Action V.World S Ret → Action V.World S Ret
  or_return step rest = do r ← step; if returns_early r then pure r else rest

-- ===== src/Lib.antt =====
-- etcdops, an operator that runs etcd clusters in Kubernetes. Four controllers watch objects of
-- their kind and are called with a key, in any order and as often as the queue likes; the webhook
-- admits the objects; a command line writes them. A controller reads and writes objects through the
-- API server alone, so the controllers meet in the server's state: the cluster controller creates
-- the members and the backup schedule of a cluster and reads the members' phases, the member
-- controller creates the pod of a member and sets its phase, the schedule controller creates
-- backups and the backup controller uploads and deletes them.
--
-- How a handler is modelled. `Kube/Run.antt` has `Action W S A`, a function from a frame, the world
-- `W` together with the handler's own object `S` (`var cluster Cluster`, which the handlers change
-- in place and share by pointer with their `defer`), to an outcome and the frame behind it. An
-- outcome is a value or a panic: the pointers that a handler follows are `Option`s there. The steps
-- are do blocks, an early return is `or_return` of `Env.antt`, and `with_defer` runs the deferred
-- status update on every path. All loops are structural on the rounds or the elements left, so that
-- no fuel is needed and every handler is a total function.
--
-- What stands outside of the repository is the parameter `Env`: the world and each call on it, that
-- is the API server behind controller-runtime's client, `CreateOrUpdate`, the clock, etcd's client,
-- object storage, the finalizer helpers and multierr. A call may answer with anything and change
-- the world in any way, other controllers' writes between two calls included. `IsLawful` has the
-- documented behaviour that some theorems use: `IsZero`, `IgnoreNotFound` and `Append` of nils.
-- `Env/Store.antt` and `Env/Clusters.antt` have what the API server documents of the members, the
-- backups and the clusters that it stores, for the theorems that follow them through a pass or from
-- one pass to the next. That a listing of backups is up to date is no law, since the controllers read
-- from a cache: where it matters it is a condition on the pass. `Tests/Memory.antt` is an instance
-- of all of these. The deep copies have a parameter of their own, `Library` with `IsDeepLibrary`, for
-- the metadata types of apimachinery.
--
-- The files and the code:
--   Base, Base/*             numbers, Go's integers, texts, path.Join
--   Kube, Kube/*             the objects and results of Kubernetes' libraries, the shape of a handler
--   Types/Cluster            api/v1alpha1/cluster_types.go
--   Types/Member, Member/*   api/v1alpha1/member_types.go
--   Types/Backup             api/v1alpha1/backup_types.go, backupschedule_types.go
--   Types/Pretty             what the types print: Prettify, Header and Rows in both files
--   Webhook                  api/v1alpha1/cluster_webhook.go (ValidateCreate: validate_create, ...);
--                            Webhook/History follows one object through the admitted changes
--   Env, Controller          controllers/result.go (Requeue) and what the controllers share
--   ClusterController        controllers/cluster_controller.go: Reconcile; Ensure has the schedule,
--                            the service and the CA, Members the reading of the members and the
--                            phase, Update the roll-out (Update/Orderly and Progress: over
--                            many passes), Repair the choice of a broken member,
--                            Cleanup the deletion, Steady what a whole pass leaves true
--                            of the stored members, Writes what it does to its own cluster
--                            (Untouched: step by step)
--   MemberController         controllers/member_controller.go: Reconcile; Ensure the volume claim,
--                            Certificates, Pods, Repair; Advance and Quiet are on a whole pass
--   BackupController         controllers/backup_controller.go; Schedule has
--                            controllers/backupschedule_controller.go, Clock what they use of time
--   Rollout, Recovery        cluster and member controller in turn, over many passes
--   Startup                  main.go and SetupWithManager, over a parameter of its own, `Runtime`
--   DeepCopy, DeepCopy/*     api/v1alpha1/zz_generated.deepcopy.go: DeepCopyInto (Into), DeepCopy and
--                            DeepCopyObject, in a memory with addresses (Memory); View has
--                            what an object reads as
--   Printer                  pkg/cli/printer.go
--   Console                  pkg/cli/client.go, and what stands outside of the command line;
--                            Console/Waiting has the two goroutines of Wait
--   Commands                 cmd/etcdops/update.go, create.go, delete.go and the flags of main.go;
--                            Commands/Read has get.go, list.go, backup.go, Commands/Flags is on
--                            the flags of update, and Commands/Restore on create --from-backup
-- Functions keep their names in lower case (EnsureMembers: ensure_members); part of a function has
-- a name of its own and the comment that says which part.
--
-- Numbers. The size of a cluster is Go's `int`, a `ℤ`; the doubled counts of the quorum tests wrap
-- around at 64 bits (`to_int`), and the theorems on them ask that twice the size fits. Instants are
-- nanoseconds since Go's zero time, unbounded, and `Time.Add` does not wrap; `Time.Sub` stops at the
-- ends of a duration (`sub_time`). Decimals are written digit by digit.
--
-- Not modelled: the registration of the types with the scheme, logging, the declaration of
-- flags of the command line, and the test suites, which only start an API server.
pub mod Base
pub mod Kube
pub mod Types
pub mod Env
pub mod Controller
pub mod ClusterController
pub mod MemberController
pub mod BackupController
pub mod Webhook
pub mod Rollout
pub mod Recovery
pub mod DeepCopy
pub mod Startup
pub mod Printer
pub mod Console
pub mod Commands
mod Tests

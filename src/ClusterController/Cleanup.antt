-- ===== src/ClusterController/Cleanup.antt =====
-- `CleanupSecrets`: the secrets of a cluster that is being deleted.
pub mod Order
use etcdops.Base.{Bool, List, [], ◌∷◌, Option, none, some, if◌then◌else◌}
use etcdops.Kube.{
  Answer, ok, err, Action, Secret, Labels, pure, call, get_self, put_self, delete_dependents, ◌>>=◌,
  ◌>>◌,
}
use etcdops.Types.Cluster.{Cluster, cleanup_secret_finalizer}
use etcdops.Types.Member.{cluster_label}
use etcdops.Env.{Env, Ret, failing}
use etcdops.ClusterController.Update.{requeueing, answer_error}

module _ (V : Env) where
  -- `client.IgnoreNotFound(err)` of the error that a listing answered with, and the list
  abbrev pub listed : {A : Type 0} → Answer V.Error (List A) → List A
  listed (ok xs) = xs
  listed (err e) = []

  abbrev pub listing_error : {A : Type 0} → Answer V.Error (List A) → Option V.Error
  listing_error (ok xs) = none
  listing_error (err e) = elim (V.ignore_not_found e) [ none ↦ none | some _ ↦ some e ]

  -- The loop of deletions, which returns at the first error
  unfoldable pub delete_secrets : List Secret → Action V.World Cluster (Option V.Error)
  delete_secrets [] = pure none
  delete_secrets (s ∷ secrets) = do
    e ← call (V.secrets.delete s)
    elim e [ some x ↦ pure (some x) | none ↦ delete_secrets secrets ]

  -- `controllerutil.RemoveFinalizer`, then `r.Update(ctx, cluster)`
  unfoldable pub release_cluster : Action V.World Cluster (Ret V)
  release_cluster = do
    c ← get_self
    let c' = record c { metadata = V.remove_finalizer c.metadata cleanup_secret_finalizer }
    put_self c'
    a ← call (V.clusters.update c')
    pure (failing V (answer_error V a))

  unfoldable pub delete_listed : List Secret → Action V.World Cluster (Ret V)
  unfolding delete_secrets release_cluster
  delete_listed secrets = do
    e ← delete_secrets secrets
    elim e [ some x ↦ pure (failing V (some x)) | none ↦ release_cluster ]

  unfoldable pub cleanup_secrets : Action V.World Cluster (Ret V)
  unfolding delete_listed
  cleanup_secrets = do
    c ← get_self
    if V.contains_finalizer c.metadata delete_dependents then pure (requeueing V none) else do
      a ← call (V.secrets.list c.metadata.namespace ((cluster_label, c.metadata.name) ∷ []))
      elim (listing_error a) [
        | some e ↦ pure (failing V (some e))
        | none ↦ delete_listed (listed a)
      ]

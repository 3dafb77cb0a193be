-- ===== src/ClusterController/Cleanup/Order.antt =====
-- `CleanupSecrets` releases a cluster only behind its secrets (controllers/cluster_controller.go).
use etcdops.Base.{
  true, false, List, [], ◌∷◌, ◌++◌, ap, none, some, ◌≡◌, refl, sym, subst, ◌⊎◌, inl, inr, arith,
  Bool-cases, Option-cases,
}
use etcdops.Kube.{Answer, ok, err, Outcome, done, Frame, Secret, delete_dependents}
use etcdops.Types.Cluster.{Cluster, cleanup_secret_finalizer}
use etcdops.Types.Member.{cluster_label}
use etcdops.Kube.Laws.{Answer-cases}
use etcdops.Env.{Env, IsLawful, Ret, failing}
use etcdops.ClusterController.Update.{requeueing, answer_error}
use etcdops.ClusterController.Observe.{moved}
use etcdops.ClusterController.Cleanup.{delete_secrets, delete_listed, cleanup_secrets}

module _ (V : Env) where
  -- Every secret of the list is deleted, in order and without an error.
  pub data Deleted : List Secret → V.World → V.World → Type 0 where
    none_left : {w : V.World} → Deleted [] w w
    one_more :
        {s : Secret} {secrets : List Secret} {w v u : V.World}
        → V.secrets.delete s w ≡ (none, v)
        → Deleted secrets v u
        → Deleted (s ∷ secrets) w u

  -- A listing answers with the secrets, or that there is nothing to list.
  abbrev pub Lists : Answer V.Error (List Secret) × V.World → List Secret → V.World → Type 0
  Lists reply secrets w =
      (reply ≡ (ok secrets, w))
      ⊎ ((e : V.Error) × (reply ≡ (err e, w)) × (V.is_not_found e ≡ true) × (secrets ≡ []))

  abbrev pub released : Cluster → Cluster
  released c = record c { metadata = V.remove_finalizer c.metadata cleanup_secret_finalizer }

  abbrev Listing : Frame V.World Cluster → Answer V.Error (List Secret) × V.World
  Listing f =
      V.secrets.list f.self.metadata.namespace ((cluster_label, f.self.metadata.name) ∷ []) f.world

  -- The pass ends with the update of the cluster without its finalizer, behind the deletions.
  pub record Releases (f : Frame V.World Cluster) (u : Outcome (Ret V) × Frame V.World Cluster)
      : Type 0 where
    pub waited : V.contains_finalizer f.self.metadata delete_dependents ≡ false
    pub listing : V.World
    pub deleted : V.World
    pub secrets : List Secret
    pub all_listed : Lists (Listing f) secrets listing
    pub all_deleted : Deleted secrets listing deleted
    pub released_self : u.1.self ≡ released f.self
    pub released_world : u.1.world ≡ (V.clusters.update (released f.self) deleted).1
    pub answered :
        u.0 ≡ done (failing V (answer_error V (V.clusters.update (released f.self) deleted).0))

  -- The pass leaves the cluster as it is, and how far it gets.
  pub data Holds (f : Frame V.World Cluster)
      : Outcome (Ret V) × Frame V.World Cluster → Type 0 where
    waits :
        V.contains_finalizer f.self.metadata delete_dependents ≡ true
        → Holds f (done (requeueing V none), f)
    unlisted :
        {e : V.Error} {w : V.World}
        → V.contains_finalizer f.self.metadata delete_dependents ≡ false
        → Listing f ≡ (err e, w)
        → V.is_not_found e ≡ false
        → Holds f (done (failing V (some e)), moved V f w)
    stuck :
        {before : List Secret} {w v u : V.World} {e : V.Error} (s : Secret) (after : List Secret)
        → V.contains_finalizer f.self.metadata delete_dependents ≡ false
        → Lists (Listing f) (before ++ (s ∷ after)) w
        → Deleted before w v
        → V.secrets.delete s v ≡ (some e, u)
        → Holds f (done (failing V (some e)), moved V f u)

  -- The loop stops at a secret that the server does not delete.
  record Sticks (secrets : List Secret) (f : Frame V.World Cluster) : Type 0 where
    before : List Secret
    secret : Secret
    after : List Secret
    error : V.Error
    reached : V.World
    left : V.World
    listed : secrets ≡ before ++ (secret ∷ after)
    gone : Deleted before f.world reached
    refused : V.secrets.delete secret reached ≡ (some error, left)
    ended : delete_secrets V secrets f ≡ (done (some error), moved V f left)

  delete_secrets-cases :
      (secrets : List Secret) (f : Frame V.World Cluster)
      → ((w : V.World) × (delete_secrets V secrets f ≡ (done none, moved V f w))
          × Deleted secrets f.world w)
        ⊎ Sticks secrets f
  unfolding delete_secrets
  delete_secrets-cases [] f = inl (f.world, refl, none_left)
  delete_secrets-cases (s ∷ secrets) f =
      let reply = V.secrets.delete s f.world in
      elim (Option-cases (reply.0)) [
        | inr (e, p) ↦ inr (record {
          before = [];
          secret = s;
          after = secrets;
          error = e;
          reached = f.world;
          left = reply.1;
          listed = refl;
          gone = none_left;
          refused = ground arith;
          ended = ground arith;
        })
        | inl p ↦ elim (delete_secrets-cases secrets (moved V f reply.1)) [
          | inl (w, q, all) ↦ inl (w, ground arith, one_more (ground arith) all)
          | inr r ↦ inr (record {
            before = s ∷ r.before;
            secret = r.secret;
            after = r.after;
            error = r.error;
            reached = r.reached;
            left = r.left;
            listed = ap (λ l. s ∷ l) r.listed;
            gone = one_more (ground arith) r.gone;
            refused = r.refused;
            ended = ground (arith, r.ended);
          })
        ]
      ]

  release :
      (f : Frame V.World Cluster) (secrets : List Secret) (w : V.World)
      → V.contains_finalizer f.self.metadata delete_dependents ≡ false
      → Lists (Listing f) secrets w
      → Holds f (delete_listed V secrets (moved V f w))
        ⊎ Releases f (delete_listed V secrets (moved V f w))
  unfolding delete_listed
  release f secrets w waited all_listed = elim (delete_secrets-cases secrets (moved V f w)) [
    | inr r ↦
        let goes : delete_listed V secrets (moved V f w)
            ≡ (done (failing V (some r.error)), moved V f r.left) =
          ground (arith, r.ended) in
        inl (
          subst (Holds f) (sym goes) (
            stuck r.secret r.after waited (subst (λ l. Lists (Listing f) l w) r.listed all_listed)
              r.gone r.refused))
    | inl (v, q, all) ↦ inr (record {
      waited = waited;
      listing = w;
      deleted = v;
      secrets = secrets;
      all_listed = all_listed;
      all_deleted = all;
      released_self = ground arith;
      released_world = ground arith;
      answered = ground arith;
    })
  ]

  -- The cleanup holds the cluster, without an update of it: while the finalizer for foreground
  -- deletion is on it, the pass calls nothing and comes back. An error of the listing is returned,
  -- unless it says that nothing was found, which counts as an empty list, and so is the error of the
  -- first secret that is not deleted, with those before it deleted. Or the cleanup releases the
  -- cluster: then that finalizer is gone from it, the secrets with the cluster's label were listed,
  -- each of them was deleted without an error, and behind that the cluster is updated without its own
  -- finalizer, with the error of this update returned.
  pub cleanup_secrets-Releases :
      IsLawful V
      → (f : Frame V.World Cluster)
      → Holds f (cleanup_secrets V f) ⊎ Releases f (cleanup_secrets V f)
  unfolding cleanup_secrets
  cleanup_secrets-Releases L f =
      let reply = Listing f in
      elim (Bool-cases (V.contains_finalizer f.self.metadata delete_dependents)) [
        | inl held ↦
            let goes : cleanup_secrets V f ≡ (done (requeueing V none), f) = ground arith in
            inl (subst (Holds f) (sym goes) (waits held))
        | inr waited ↦ elim (Answer-cases (reply.0)) [
          | inl (secrets, p) ↦
              let goes : cleanup_secrets V f ≡ delete_listed V secrets (moved V f reply.1) =
                ground arith in
              subst (λ u. Holds f u ⊎ Releases f u) (sym goes)
                (release f secrets reply.1 waited (inl (ground arith)))
          | inr (e, p) ↦ elim (Bool-cases (V.is_not_found e)) [
            | inl missing ↦
                let goes : cleanup_secrets V f ≡ delete_listed V [] (moved V f reply.1) =
                  ground (arith, L.ignore_not_found_lem e) in
                subst (λ u. Holds f u ⊎ Releases f u) (sym goes)
                  (release f [] reply.1 waited (inr (e, ground arith, missing, refl)))
            | inr failure ↦
                let goes : cleanup_secrets V f ≡ (done (failing V (some e)), moved V f reply.1) =
                  ground (arith, L.ignore_not_found_lem e) in
                inl (subst (Holds f) (sym goes) (unlisted waited (ground arith) failure))
          ]
        ]
      ]

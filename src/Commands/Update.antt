-- ===== src/Commands/Update.antt =====
-- What the command `update` can and cannot do (cmd/etcdops/update.go).
use etcdops.Base.{
  String, ◌&&◌, List, [], ◌∷◌, ◌≡◌, ◌≢◌, ◌↔◌, ◌⊎◌, inl, inr, arith, Bool-cases, Option,
  Option-cases, some, none, str_eq, eq_iff, Memᴰ, refl,
}
use etcdops.Base.Int.{pos, beq_ℤ}
use etcdops.Kube.{ok}
use etcdops.Kube.Laws.{Answer-cases}
use etcdops.Types.Cluster.{Cluster, ClusterPhase}
use etcdops.Printer.{Printable}
use etcdops.Webhook.{validate_update}
use etcdops.Webhook.History.{validate_update-Admissible, beq_ℤ_iff}
use etcdops.Console.{Event, Console, prints, wait, wait_for, new_client}
use etcdops.Commands.{UpdateParams, is_rolled_out, change_cluster, update_found, update_command}

-- The flags that the webhook lets through for a cluster
abbrev pub Accepted : UpdateParams → Cluster → Type 0
Accepted up c =
    ((up.size ≡ pos 0) ⊎ (up.size ≡ c.spec.size))
    × ((c.status.phase ≢ ClusterPhase.updating)
        ⊎ ((up.version ≡ "") ⊎ (up.version ≡ c.spec.version)))

-- The webhook admits what `update` makes of a cluster exactly if the flag for the size is missing,
-- zero or the size that the cluster has, and, while the cluster is in the phase Updating, the flag
-- for the version is missing, empty or the version that the spec has.
pub change_cluster-Accepted :
    (up : UpdateParams) (c : Cluster)
    → (validate_update (change_cluster up c) (some c) ≡ none) ↔ Accepted up c
unfolding change_cluster
change_cluster-Accepted up c =
    let admitted = validate_update-Admissible (change_cluster up c) c in
    let version = eq_iff up.version "" in
    let size = beq_ℤ_iff up.size (pos 0) in
    (
      λ h.
          let (v, _, s) = admitted.0 h in
          (
            elim (Bool-cases (beq_ℤ up.size (pos 0))) [
              | inl z ↦ inl (size.0 z)
              | inr n ↦ inr (ground arith)
            ],
            elim v [
              | inl calm ↦ inl calm
              | inr e ↦ elim (Bool-cases (str_eq up.version "")) [
                | inl z ↦ inr (inl (version.0 z))
                | inr n ↦ inr (inr (ground arith))
              ]
            ],
          ),
      λ (s, v). admitted.1 (
        elim v [
          | inl calm ↦ inl calm
          | inr (inl e) ↦ inr (ground (arith, version))
          | inr (inr e) ↦ inr (ground (arith, version))
        ],
        refl,
        ground (arith, size),
      ),
    )

wait-mem :
    (condition : Event → Option Cluster) (events : List Event) {c : Cluster}
    → wait condition events ≡ some c
    → (e : Event) × Memᴰ e events × (condition e ≡ some c)
unfolding wait
wait-mem condition [] h = absurd (ground arith)
wait-mem condition (e ∷ events) h = elim (Option-cases (condition e)) [
  | inr (x, p) ↦ (e, Memᴰ.head refl, ground arith)
  | inl p ↦ let (y, i, q) = wait-mem condition events (ground arith) in (y, Memᴰ.tail i, q)
]

is_rolled_out-when :
    (up : UpdateParams) (name : String) (e : Event) {c : Cluster}
    → is_rolled_out up name e ≡ some c
    → (c.status.version ≡ up.version) × (c.metadata.name ≡ name) × (e.object ≡ some c)
unfolding is_rolled_out
is_rolled_out-when up name e {c = c} h = elim (Option-cases e.object) [
  | inl p ↦ absurd (ground arith)
  | inr (d, p) ↦
      elim (Bool-cases (str_eq d.status.version up.version && str_eq d.metadata.name name)) [
        | inr unmet ↦ absurd (ground arith)
        | inl met ↦
            let version = eq_iff d.status.version up.version in
            let same_name = eq_iff d.metadata.name name in
            (ground (arith, version), ground (arith, same_name), ground arith)
      ]
]

module _ (K : Console) where
  -- The events that a watch delivers from some world on
  abbrev pub Delivers : Event → Type 0
  Delivers e = (w : K.World) × (events : List Event) × ((K.watch w).0 ≡ ok events) × Memᴰ e events

  wait_for-prints :
      (condition : Event → Option Cluster) (w : K.World) {c : Cluster}
      → (wait_for K condition w).0 ≡ prints (Printable.cluster c)
      → (events : List Event) × ((K.watch w).0 ≡ ok events) × (wait condition events ≡ some c)
  unfolding wait_for
  wait_for-prints condition w h = elim (Answer-cases (K.watch w).0) [
    | inr (e, p) ↦ absurd (ground arith)
    | inl (events, p) ↦ elim (Option-cases (wait condition events)) [
      | inl q ↦ absurd (ground arith)
      | inr (d, q) ↦ (events, p, ground arith)
    ]
  ]

  update_found-prints :
      (up : UpdateParams) (name : String) (old : Cluster) (w : K.World) {c : Cluster}
      → (update_found K up name old w).0 ≡ prints (Printable.cluster c)
      → (v : K.World) × ((wait_for K (is_rolled_out up name) v).0 ≡ prints (Printable.cluster c))
  unfolding update_found
  update_found-prints up name old w h =
      let reply = K.update (change_cluster up old) w in
      elim (Answer-cases reply.0) [
        | inr (e, p) ↦ absurd (ground arith)
        | inl (d, p) ↦ (reply.1, ground arith)
      ]

  update_command-waits :
      (up : UpdateParams) (name : String) (w : K.World) {c : Cluster}
      → (update_command K up name w).0 ≡ prints (Printable.cluster c)
      → (v : K.World) × ((wait_for K (is_rolled_out up name) v).0 ≡ prints (Printable.cluster c))
  unfolding update_command
  update_command-waits up name w h =
      let client = new_client K w in
      elim (Answer-cases client.0) [
        | inr (e, p) ↦ absurd (ground arith)
        | inl (namespace, p) ↦
            let reply = K.get (record { name = name; namespace = namespace }) client.1 in
            elim (Answer-cases reply.0) [
              | inr (e, q) ↦ absurd (ground arith)
              | inl (old, q) ↦ update_found-prints up name old reply.1 (ground arith)
            ]
      ]

  -- `update` prints a cluster only if an event of its watch has it, if it has the name that was given,
  -- in any namespace, and if its recorded version is the text of the version flag, which is empty if
  -- the flag is missing: then a cluster with a recorded version never ends the wait.
  pub update_command-prints :
      (up : UpdateParams) (name : String) (w : K.World) {c : Cluster}
      → (update_command K up name w).0 ≡ prints (Printable.cluster c)
      → (c.status.version ≡ up.version)
        × (c.metadata.name ≡ name)
        × (e : Event) × (e.object ≡ some c)
        × Delivers e
  update_command-prints up name w h =
      let (v, waited) = update_command-waits up name w h in
      let (events, delivered, ended) = wait_for-prints (is_rolled_out up name) v waited in
      let (e, i, met) = wait-mem (is_rolled_out up name) events ended in
      let (version, same_name, object) = is_rolled_out-when up name e met in
      (version, same_name, e, object, (v, events, delivered, i))

-- ===== src/Commands/Flags.antt =====
-- Which flags of the command `update` reach their fields (cmd/etcdops/update.go).
use etcdops.Base.{
  not, if◌then◌else◌, sym, ◌≡◌, ◌≢◌, ◌↔◌, ◌⊎◌, inl, inr, arith, Bool-cases, str_eq, eq_iff, refl,
}
use etcdops.Base.Int.{ℤ, pos, beq_ℤ}
use etcdops.Types.Cluster.{Cluster}
use etcdops.Webhook.History.{beq_ℤ_iff}
use etcdops.Commands.{UpdateParams, change_cluster}

-- A flag that is given, which is not zero, sets its field, and a missing one leaves it.
abbrev pub Sets : ℤ → ℤ → ℤ → Type 0
Sets flag old new = ((flag ≡ pos 0) × (new ≡ old)) ⊎ ((flag ≢ pos 0) × (new ≡ flag))

-- `d` is `c` with what the flags say.
abbrev pub Heeds : UpdateParams → Cluster → Cluster → Type 0
Heeds up c d =
    (d.metadata ≡ c.metadata)
    × (d.status ≡ c.status)
    × (d.spec.backup ≡ c.spec.backup)
    × Sets up.size c.spec.size d.spec.size
    × (((up.version ≡ "") × (d.spec.version ≡ c.spec.version))
        ⊎ ((up.version ≢ "") × (d.spec.version ≡ up.version)))
    × Sets up.backup_creation_period c.spec.backup_creation_period d.spec.backup_creation_period
    × Sets up.backup_retention_period c.spec.backup_retention_period d.spec.backup_retention_period

-- The flags that `update` gets right for a cluster
abbrev pub Spared : UpdateParams → Cluster → Type 0
Spared up c =
    (up.backup_creation_period ≡ pos 0)
    ⊎ ((up.backup_creation_period ≡ c.spec.backup_creation_period)
        × ((up.backup_retention_period ≢ pos 0) ⊎ (c.spec.backup_retention_period ≡ pos 0)))

Sets-cases : (flag old : ℤ) → Sets flag old (if not (beq_ℤ flag (pos 0)) then flag else old)
Sets-cases flag old =
    let test = beq_ℤ_iff flag (pos 0) in
    elim (Bool-cases (beq_ℤ flag (pos 0))) [
      | inl z ↦ inl (test.0 z, ground arith)
      | inr n ↦ inr (λ e. ground (arith, test.1 e), ground arith)
    ]

-- `update` makes of a cluster what its flags say, so that each flag that is given sets its own field
-- and all other fields stay, exactly if the flag for the period in which backups are created is
-- missing or zero, or is the period that the cluster has while the flag for the retention period is
-- given or the cluster's retention period is zero.
pub change_cluster-Heeds :
    (up : UpdateParams) (c : Cluster) → Heeds up c (change_cluster up c) ↔ Spared up c
unfolding change_cluster
change_cluster-Heeds up c =
    let creation = beq_ℤ_iff up.backup_creation_period (pos 0) in
    let version = eq_iff up.version "" in
    (
      λ (_, _, _, _, _, own, other). elim own [
        | inl (missing, _) ↦ inl missing
        | inr (given, same) ↦ inr (
          sym same,
          elim other [
            | inr (there, _) ↦ inl there
            | inl (gone, stays) ↦ inr (elim (Bool-cases (beq_ℤ up.backup_creation_period (pos 0))) [
              | inl z ↦ absurd (given (creation.0 z))
              | inr n ↦ ground arith
            ])
          ],
        )
      ],
      λ spared. (
        refl,
        refl,
        refl,
        Sets-cases up.size c.spec.size,
        elim (Bool-cases (str_eq up.version "")) [
          | inl z ↦ inl (version.0 z, ground arith)
          | inr n ↦ inr (λ e. ground (arith, version.1 e), ground arith)
        ],
        elim (Bool-cases (beq_ℤ up.backup_creation_period (pos 0))) [
          | inl z ↦ inl (creation.0 z, refl)
          | inr n ↦ elim spared [
            | inl missing ↦ absurd (ground (arith, creation.1 missing))
            | inr (same, _) ↦ inr (λ e. ground (arith, creation.1 e), sym same)
          ]
        ],
        elim (Bool-cases (beq_ℤ up.backup_creation_period (pos 0))) [
          | inl z ↦
              ground (arith, Sets-cases up.backup_retention_period c.spec.backup_retention_period)
          | inr n ↦ elim spared [
            | inl missing ↦ absurd (ground (arith, creation.1 missing))
            | inr (_, inl given) ↦ inr (given, ground arith)
            | inr (_, inr gone) ↦
                let retention = beq_ℤ_iff up.backup_retention_period (pos 0) in
                elim (Bool-cases (beq_ℤ up.backup_retention_period (pos 0))) [
                  | inl z' ↦ inl (retention.0 z', ground (arith, retention.0 z'))
                  | inr n' ↦ inr (λ e. ground (arith, retention.1 e), ground arith)
                ]
          ]
        ],
      ),
    )

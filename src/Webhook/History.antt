-- ===== src/Webhook/History.antt =====
-- api/v1alpha1/cluster_webhook.go: what the admitted changes leave of a cluster. The API server
-- asks `ValidateCreate` once and `ValidateUpdate` for each later change; the controllers write the
-- status without being asked.
use etcdops.Base.{
  ℕ, ◌+◌, ◌*◌, ◌/◌, ap, true, false, none, some, ◌≡◌, refl, sym, ◌∙◌, subst, ◌≢◌, ◌↔◌, ◌⊎◌, inl,
  inr, arith, eq_iff,
}
use etcdops.Base.Int.{ℤ, pos, negsuc, beq_ℤ, rem_two}
use etcdops.Types.Cluster.{Cluster, ClusterPhase, ClusterStatus, is_updating}
use etcdops.Webhook.{validate_create, validate_change, validate_update}

-- Odd, on both sides of zero
abbrev pub Odd : ℤ → Type 0
Odd z = (k : ℕ) × ((z ≡ pos (k * 2 + 1)) ⊎ (z ≡ negsuc (k * 2)))

-- What a change from `old` to `r` may touch
abbrev pub Admissible : Cluster → Cluster → Type 0
Admissible r old =
    ((old.status.phase ≢ ClusterPhase.updating) ⊎ (r.spec.version ≡ old.spec.version))
    × (r.spec.backup ≡ old.spec.backup)
    × (r.spec.size ≡ old.spec.size)

-- The states of one object, from its creation on
pub data History (start : Cluster) : Cluster → Type 0 where
  created : validate_create start ≡ none → History start start
  updated :
      {old : Cluster} (r : Cluster)
      → History start old
      → validate_update r (some old) ≡ none
      → History start r
  reported :
      {old : Cluster} (s : ClusterStatus)
      → History start old
      → History start (record old { status = s })

rem_two-Odd : (z : ℤ) → (beq_ℤ (rem_two z) (pos 0) ≡ false) ↔ Odd z
unfolding rem_two
rem_two-Odd (pos n) = (
  (λ h. (n / 2, inl (ap pos (ground arith)))),
  λ (k, e). elim e [ inl e ↦ ground arith | inr e ↦ ground arith ],
)
rem_two-Odd (negsuc n) = (
  (λ h. (n / 2, inr (ap negsuc (ground arith)))),
  λ (k, e). elim e [ inl e ↦ ground arith | inr e ↦ ground arith ],
)

pub beq_ℤ_iff : (a b : ℤ) → (beq_ℤ a b ≡ true) ↔ (a ≡ b)
beq_ℤ_iff a b = (λ h. ground arith, λ h. ground arith)

is_updating_iff : (p : ClusterPhase) → (is_updating p ≡ true) ↔ (p ≡ ClusterPhase.updating)
is_updating_iff p = (λ h. ground arith, λ h. ground arith)

-- A cluster may be created exactly if its size is odd, and a negative size may be odd.
pub validate_create-Odd : (r : Cluster) → (validate_create r ≡ none) ↔ Odd r.spec.size
unfolding validate_create
validate_create-Odd r = (
  λ h. (rem_two-Odd r.spec.size).0 (ground arith),
  λ h. let e = (rem_two-Odd r.spec.size).1 h in ground arith,
)

-- A change of a cluster is accepted exactly if it keeps the size and the backup, and also the
-- version while the cluster is in the phase Updating.
pub validate_update-Admissible :
    (r old : Cluster) → (validate_update r (some old) ≡ none) ↔ Admissible r old
unfolding validate_update validate_change
validate_update-Admissible r old =
    let version = eq_iff r.spec.version old.spec.version in
    let backup = eq_iff old.spec.backup r.spec.backup in
    let size = beq_ℤ_iff old.spec.size r.spec.size in
    let phase = is_updating_iff old.status.phase in
    (
      λ h. ground (arith, version, backup, size, phase),
      λ (v, b, s). ground (arith, version, backup, size, phase),
    )

-- Through any changes that the webhook admits and any writes of the status, a cluster keeps the size
-- and the backup that it was created with, and its size is odd.
pub History-keeps :
    {start c : Cluster}
    → History start c
    → Odd c.spec.size × (c.spec.size ≡ start.spec.size) × (c.spec.backup ≡ start.spec.backup)
History-keeps (History.created h) = ((validate_create-Odd _).0 h, refl, refl)
History-keeps (History.updated {old = old} r past h) =
    let (odd, size, backup) = History-keeps past in
    let (_, same_backup, same_size) = (validate_update-Admissible r old).0 h in
    (subst Odd (sym same_size) odd, same_size ∙ size, same_backup ∙ backup)
History-keeps (History.reported s past) = History-keeps past

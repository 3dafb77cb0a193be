-- ===== src/Commands/Restore.antt =====
-- What becomes of `create --from-backup` (cmd/etcdops/create.go) in the pods of the members
-- (api/v1alpha1/member_types.go).
use etcdops.Base.{
  ℕ, String, ◌<>◌, true, false, ◌||◌, Bool, ◌⊎◌, subst, if◌then◌else◌, List, [], ◌∷◌, ◌++◌, none,
  ◌≡◌, ◌≢◌, refl, sym, ◌∙◌, ap, inl, inr, arith, All, Bool-cases, str_eq, eq_iff,
}
use etcdops.Kube.{Pod, Container}
use etcdops.Types.Cluster.{Cluster, get_member, get_member_name, member_names}
use etcdops.Types.Member.{
  Member, MemberStatus, is_recreating, get_cluster, get_state, get_advertise_peer_url,
  get_advertise_client_url,
}
use etcdops.Types.Member.Pod.{
  get_pod, get_image, get_init_containers, get_containers, restore_container, get_peer_cert_secret,
  get_client_cert_secret,
}
use etcdops.Commands.{CreateParams, new_cluster, one_of_version_from_backup}

-- The pod that the operator makes for member `i`
abbrev pub pod_of : Cluster → ℕ → MemberStatus → Pod
pod_of c i status = get_pod (record (get_member c i) { status = status })

abbrev pub named_backup : Cluster → String → Cluster
named_backup c b = record c { spec = record (c.spec) { backup = b } }

abbrev pub restoring : CreateParams → String → CreateParams
restoring cp b = record cp { from_backup = b }

-- A text that is not empty
not_empty : (b : String) → b ≢ "" → str_eq b "" ≡ false
not_empty b given = elim (Bool-cases (str_eq b "")) [
  | inl h ↦ let same = eq_iff b "" in absurd (given (ground (arith, same)))
  | inr h ↦ h
]

if_one :
    {A : Type 0} (b : Bool) (x : A)
    → ((if b then [] else x ∷ []) ≡ []) ⊎ ((if b then [] else x ∷ []) ≡ x ∷ [])
if_one true x = inl refl
if_one false x = inr refl

-- There is no container that restores, or one with the member's image.
init_containers-cases :
    (m : Member)
    → (get_init_containers m ≡ [])
      ⊎ ((k : Container) × (get_init_containers m ≡ k ∷ []) × (k.image ≡ get_image m))
unfolding get_init_containers
init_containers-cases m =
    elim (if_one (str_eq m.spec.backup "" || is_recreating m.status.phase) (restore_container m)) [
      | inl e ↦ inl e
      | inr e ↦ inr (restore_container m, e, refl)
    ]

abbrev Runs : List Container → Type 0
Runs l = All (λ (k : Container). k.image ≡ "quay.io/coreos/etcd:v") l

containers_image :
    (m : Member) → m.spec.version ≡ "" → Runs (get_init_containers m ++ get_containers m)
unfolding get_containers get_image
containers_image m version =
    let image : get_image m ≡ "quay.io/coreos/etcd:v" =
      ap (λ v. "quay.io/coreos/etcd:v" <> v) version in
    elim (init_containers-cases m) [
      | inl e ↦ subst (λ l. Runs (l ++ get_containers m)) (sym e) (image, tt)
      | inr (k, e, same) ↦
          subst (λ l. Runs (l ++ get_containers m)) (sym e) (same ∙ image, (image, tt))
    ]

same_if :
    {A : Type 0} (s t r : Bool) (x : List A)
    → s ≡ t
    → (if s || r then [] else x) ≡ (if t || r then [] else x)
same_if s t r x e = ap (λ b. if b || r then [] else x) e

-- The containers that restore depend on the backup only through its being there.
init_containers_agree :
    (m : Member) (b : String)
    → str_eq m.spec.backup "" ≡ false
    → str_eq b "" ≡ false
    → get_init_containers (record m { spec = record (m.spec) { backup = b } })
      ≡ get_init_containers m
unfolding get_init_containers get_image get_cluster get_advertise_peer_url
init_containers_agree m b named named' =
    same_if (str_eq b "") (str_eq m.spec.backup "") (is_recreating m.status.phase)
      (restore_container m ∷ []) (named' ∙ sym named)

-- If the version is left out, `create` takes any name of a backup, and each container of the pods that
-- the operator makes for the cluster, in whatever status the member is, runs the image of an empty
-- version. The pods are the same whatever backup was named.
pub create_ignores_backup :
    (cp : CreateParams) (name namespace b b' : String) (c : Cluster) (i : ℕ) (status : MemberStatus)
    → b ≢ ""
    → b' ≢ ""
    → c.spec ≡ (new_cluster (restoring cp b) name namespace "").spec
    → (one_of_version_from_backup (restoring cp b) (name ∷ []) ≡ none)
      × All
          (λ (k : Container). k.image ≡ "quay.io/coreos/etcd:v")
          ((pod_of c i status).init_containers ++ (pod_of c i status).containers)
      × (pod_of (named_backup c b') i status ≡ pod_of c i status)
unfolding new_cluster one_of_version_from_backup get_pod get_member get_init_containers
    get_containers get_image get_member_name member_names get_advertise_peer_url
    get_advertise_client_url get_cluster get_state get_peer_cert_secret get_client_cert_secret
create_ignores_backup cp name namespace b b' c i status given given' made =
    let named = not_empty b given in
    let named' = not_empty b' given' in
    let version : c.spec.version ≡ "" = ap (λ s. s.version) made in
    let backup : c.spec.backup ≡ b = ap (λ s. s.backup) made in
    let m : Member = record (get_member c i) { status = status } in
    let restores = init_containers_agree m b' (ground arith) named' in
    (
      ground arith,
      containers_image m version,
      ap (λ l. record (get_pod m) { init_containers = l }) restores,
    )

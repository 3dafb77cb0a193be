-- ===== src/ClusterController/Update/Effects.antt =====
-- What a pass of `UpdateMembers` does to the members that the server stores
-- (controllers/cluster_controller.go).
use etcdops.Base.{
  ℕ, none, some, ◌≡◌, ◌≢◌, refl, sym, ◌∙◌, ap, subst, ◌⊎◌, inl, inr, arith, eq_iff, Option,
  Bool-cases, ◌==◌,
}
use etcdops.Kube.{ok, NamespacedName, ObjectMeta}
use etcdops.Kube.Laws.{Answer-cases}
use etcdops.Types.Cluster.{Cluster, get_member, get_member_name}
use etcdops.Types.Cluster.Names.{get_member_name-injective}
use etcdops.Types.Member.{Member}
use etcdops.Env.{Env, OwnerKind}
use etcdops.Env.Store.{MemberStore, key_of}
use etcdops.Controller.{skip_update}
use etcdops.ClusterController.Members.{ensure_member}
use etcdops.ClusterController.Update.Rolling.{
  ask_certificates, Fr, Reads, Settles, current, withdrawn,
}

skip_update-none : {E : Type 0} → skip_update {E = E} tt ≡ none
unfolding skip_update
skip_update-none = refl

-- The key of member `i`
abbrev pub member_key : Cluster → ℕ → NamespacedName
member_key c i = record { name = get_member_name c i; namespace = c.metadata.namespace }

member_key-injective : (c : Cluster) (i j : ℕ) → member_key c i ≡ member_key c j → i ≡ j
member_key-injective c i j e = get_member_name-injective c i j (ap (λ k. k.name) e)

-- The versions of a member: of its spec, and of what it runs
abbrev pub SameVersion : Member → Member → Type 0
SameVersion m m' = (m'.spec.version ≡ m.spec.version) × (m'.status.version ≡ m.status.version)

module _ (V : Env) (S : MemberStore V) where
  abbrev pub stored : Cluster → V.World → ℕ → Option Member
  stored c w i = S.lookup (member_key c i) w

  -- The member that `ensure_member` asks for, with the reference to its cluster
  abbrev referring : Cluster → ℕ → ObjectMeta → Member
  referring c i meta = record (get_member c i) { metadata = meta }

  referring-stored :
      (c : Cluster) (i : ℕ) (w : V.World) {meta : ObjectMeta} {m : Member}
      → V.set_controller_reference OwnerKind.cluster c.metadata (get_member c i).metadata ≡ ok meta
      → stored c w i ≡ some m
      → S.lookup (key_of meta) w ≡ some m
  unfolding get_member
  referring-stored c i w {m = m} refers known =
      subst (λ k. S.lookup k w ≡ some m) (sym (S.reference_keeps_key refers)) known

  -- `ensure_member` leaves the stored members as they are,
  pub ensure_member-keeps :
      (i : ℕ) (f : Fr V) {m : Member}
      → stored f.self f.world i ≡ some m
      → ((ensure_member V i f).1.self ≡ f.self)
        × ((k : NamespacedName) → S.lookup k (ensure_member V i f).1.world ≡ S.lookup k f.world)
  unfolding ensure_member
  ensure_member-keeps i f {m} known =
      elim (Answer-cases (
        V.set_controller_reference OwnerKind.cluster f.self.metadata
          (get_member f.self i).metadata)) [
            | inr (e, p) ↦ (ground arith, λ k. ground arith)
            | inl (meta, p) ↦
                let a = referring f.self i meta in
                let reply = V.members.create_or_update a skip_update f.world in
                let kept =
                  S.create_or_update_keeps {a = a} {mutate = skip_update}
                    (referring-stored f.self i f.world p known) skip_update-none in
                (ground arith, λ k. ground (arith, kept k))
          ]

  -- and answers with the one that is asked for.
  ensure_member-Reads :
      (i : ℕ) (f g : Fr V) {x m : Member}
      → Reads V i f x g
      → stored f.self f.world i ≡ some m
      → x ≡ m
  unfolding ensure_member
  ensure_member-Reads i f g {x} {m} reads known =
      elim (Answer-cases (
        V.set_controller_reference OwnerKind.cluster f.self.metadata
          (get_member f.self i).metadata)) [
            | inr (e, p) ↦ absurd (ground arith)
            | inl (meta, p) ↦
                let a = referring f.self i meta in
                let reply = V.members.create_or_update a skip_update f.world in
                elim (Answer-cases reply.0) [
                  | inr (e, q) ↦ absurd (ground arith)
                  | inl ((y, op), q) ↦
                      let same : x ≡ y = ground arith in
                      same
                      ∙ S.create_or_update_reads {a = a} {mutate = skip_update}
                          (referring-stored f.self i f.world p known) skip_update-none q
                ]
          ]

  -- An update of member `i` leaves the others as they are. It writes the spec that was sent, or
  -- nothing.
  pub update-stored :
      (c : Cluster) (i k : ℕ) (a : Member) (w : V.World) {m n : Member}
      → key_of a.metadata ≡ member_key c i
      → stored c w i ≡ some m
      → stored c w k ≡ some n
      → (n' : Member) × (stored c (V.members.update a w).1 k ≡ some n')
        × ((n' ≡ n) ⊎ ((k ≡ i) × (n'.spec ≡ a.spec) × (n'.status ≡ n.status)))
  update-stored c i k a w {m} {n} keyed known other =
      let reply = V.members.update a w in
      let found : S.lookup (key_of a.metadata) w ≡ some m = rw keyed known in
      elim (Answer-cases reply.0) [
        | inr (e, p) ↦ (n, S.update_refused p (member_key c k) ∙ other, inl refl)
        | inl (x, p) ↦ elim (Bool-cases (k == i)) [
          | inl h ↦
              let same : k ≡ i = ground arith in
              let (spec, status, there) = S.update_writes found p in
              let same_member : m ≡ n = ground arith in
              (
                x,
                subst (λ j. stored c reply.1 j ≡ some x) (sym same)
                    (subst (λ key. S.lookup key reply.1 ≡ some x) keyed there),
                inr (same, spec, status ∙ ap (λ y. y.status) same_member),
              )
          | inr h ↦
              let apart : member_key c k ≢ key_of a.metadata =
                λ e. ground (arith, member_key-injective c k i (e ∙ keyed)) in
              (n, S.update_keeps_others apart ∙ other, inl refl)
        ]
      ]

  -- From `w` to `w'` no member changes its versions.
  abbrev pub SameVersions : Cluster → V.World → V.World → Type 0
  SameVersions c w w' =
      (k : ℕ) (n : Member)
      → stored c w k ≡ some n
      → (n' : Member) × (stored c w' k ≡ some n') × SameVersion n n'

  pub SameVersions-trans :
      (c : Cluster) (u v w : V.World) → SameVersions c u v → SameVersions c v w → SameVersions c u w
  SameVersions-trans c u v w first second k n h =
      let (n', there, (spec, status)) = first k n h in
      let (x, further, (spec', status')) = second k n' there in
      (x, further, (spec' ∙ spec, status' ∙ status))

  pub SameVersions-lookup :
      (c : Cluster) (w w' : V.World)
      → ((k : NamespacedName) → S.lookup k w' ≡ S.lookup k w)
      → SameVersions c w w'
  SameVersions-lookup c w w' same k n h = (n, same (member_key c k) ∙ h, (refl, refl))

  pub update-SameVersions :
      (c : Cluster) (i : ℕ) (a : Member) (w : V.World) {m : Member}
      → key_of a.metadata ≡ member_key c i
      → stored c w i ≡ some m
      → a.spec.version ≡ m.spec.version
      → SameVersions c w (V.members.update a w).1
  update-SameVersions c i a w {m} keyed known version k n h =
      let (n', there, how) = update-stored c i k a w keyed known h in
      (
        n',
        there,
        elim how [
          | inl same ↦ (ap (λ y. y.spec.version) same, ap (λ y. y.status.version) same)
          | inr (at_i, spec, status) ↦
              let here : stored c w i ≡ some n = subst (λ j. stored c w j ≡ some n) at_i h in
              let same : m ≡ n = ground arith in
              (
                ap (λ y. y.version) spec ∙ version ∙ ap (λ y. y.spec.version) same,
                ap (λ y. y.version) status,
              )
        ],
      )

  -- The member runs the version of the cluster, and was asked for it.
  abbrev pub IsCurrent : Cluster → Member → Type 0
  IsCurrent c m = (m.spec.version ≡ c.spec.version) × (m.status.version ≡ c.spec.version)

  -- Reading member `i` changes nothing.
  pub reading :
      (i : ℕ) (f g : Fr V) {x m : Member}
      → Reads V i f x g
      → stored f.self f.world i ≡ some m
      → (x ≡ m)
        × (g.self ≡ f.self)
        × ((k : NamespacedName) → S.lookup k g.world ≡ S.lookup k f.world)
  reading i f g reads known =
      let (self, same) = ensure_member-keeps i f known in
      let behind : (ensure_member V i f).1 ≡ g = ap (λ u. u.1) reads in
      (
        ensure_member-Reads i f g reads known,
        rw behind at self,
        λ k. ap (λ h. S.lookup k h.world) (sym behind) ∙ same k,
      )

  -- A member that a pass settles was current, and no member changes its versions.
  pub Settles-IsCurrent :
      {i : ℕ} {f g : Fr V} {m : Member}
      → Settles V i f g
      → stored f.self f.world i ≡ some m
      → (g.self ≡ f.self) × SameVersions f.self f.world g.world × IsCurrent f.self m
  Settles-IsCurrent {i} {f} {g} {m} (current x reads asked due runs) known =
      let (same, self, kept) = reading i f g reads known in
      let spec = eq_iff f.self.spec.version x.spec.version in
      let status = eq_iff f.self.spec.version x.status.version in
      (
        self,
        SameVersions-lookup f.self f.world g.world kept,
        (ground (arith, spec), ground (arith, status)),
      )
  Settles-IsCurrent {i} {f} {g} {m} (withdrawn x x' h reads asked _ update self unwanted runs)
        known =
      let (same, _, kept) = reading i f h reads known in
      let spec = eq_iff f.self.spec.version x.spec.version in
      let status = eq_iff f.self.spec.version x'.status.version in
      let there : stored f.self h.world i ≡ some x =
        kept (member_key f.self i) ∙ known ∙ ap some (sym same) in
      let keyed = S.lookup_keyed there in
      let found : S.lookup (key_of x.metadata) h.world ≡ some x = rw keyed there in
      let (_, wrote, _) = S.update_writes {a = ask_certificates x} found (ap (λ u. u.0) update) in
      let last : SameVersions f.self h.world (V.members.update (ask_certificates x) h.world).1 =
        update-SameVersions f.self i (ask_certificates x) h.world keyed there refl in
      (
        self,
        SameVersions-trans f.self f.world h.world g.world
            (SameVersions-lookup f.self f.world h.world kept) (rw (ap (λ u. u.1) update) at last),
        (ground (arith, spec), ground (arith, status)),
      )

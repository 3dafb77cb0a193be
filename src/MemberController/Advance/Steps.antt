-- ===== src/MemberController/Advance/Steps.antt =====
-- What a pass over a member (controllers/member_controller.go, `Reconcile`) makes of the members that
-- the server stores.
use etcdops.Base.{
  Bool, true, false, ◌&&◌, some, ◌≡◌, ◌≢◌, refl, sym, ◌∙◌, ap, subst, ◌⊎◌, inl, inr, arith,
  Bool-cases, Option-cases, str_eq, eq_iff,
}
use etcdops.Kube.{ok, NamespacedName}
use etcdops.Kube.Laws.{Answer-cases}
use etcdops.Types.Member.{Member}
use etcdops.Env.{Env, IsLawful}
use etcdops.Env.Store.{MemberStore, MemberCalls, key_of}
use etcdops.MemberController.{reconcile, reconcile_found, reconcile_body}
use etcdops.MemberController.Repair.{update_member_status}
use etcdops.MemberController.Repair.Confined.{
  Confined-trans, reconcile_body-Confined, update_member_status-Confined,
}
use etcdops.MemberController.Advance.{Fr, Advances, stays, fails, restarts, runs}
use etcdops.MemberController.Advance.Pass.{reconcile_body-Moves}
use etcdops.MemberController.Quiet.{reconcile_body-Quiet}

same_key : NamespacedName → NamespacedName → Bool
same_key j k = str_eq j.name k.name && str_eq j.namespace k.namespace

pub same_key-cases : (j k : NamespacedName) → (j ≡ k) ⊎ (j ≢ k)
unfolding same_key
same_key-cases j k =
    let name = eq_iff j.name k.name in
    let namespace = eq_iff j.namespace k.namespace in
    elim (Bool-cases (same_key j k)) [
      | inl h ↦ inl (ground (arith, name, namespace))
      | inr h ↦ inr λ e. ground (arith, name, namespace)
    ]

-- `Advances` reads the status alone.
Advances-status : (m d x : Member) → x.status ≡ d.status → Advances m d → Advances m x
Advances-status m d x e (stays p v t) =
    stays (ap (λ s. s.phase) e ∙ p) (ap (λ s. s.version) e ∙ v) (ap (λ s. s.failed_time) e ∙ t)
Advances-status m d x e (fails ran due p v) =
    fails ran (rw (sym (ap (λ s. s.certificate_expires) e)) at due) (ap (λ s. s.phase) e ∙ p)
      (ap (λ s. s.version) e ∙ v)
Advances-status m d x e (restarts due p v t) =
    restarts (rw (sym (ap (λ s. s.certificate_expires) e)) at due) (ap (λ s. s.phase) e ∙ p)
      (ap (λ s. s.version) e ∙ v) (ap (λ s. s.failed_time) e ∙ t)
Advances-status m d x e (runs p v) = runs (ap (λ s. s.phase) e ∙ p) (ap (λ s. s.version) e ∙ v)

module _ (V : Env) (S : MemberStore V) (K : MemberCalls V S) where
  abbrev SameMembers : V.World → V.World → Type 0
  SameMembers w w' = (k : NamespacedName) → S.lookup k w' ≡ S.lookup k w

  -- Each stored member stays as it is, or advances.
  abbrev pub Steps : V.World → V.World → Type 0
  Steps w w' =
      (k : NamespacedName) (n : Member)
      → S.lookup k w ≡ some n
      → (n' : Member) × (S.lookup k w' ≡ some n')
        × ((n' ≡ n) ⊎ ((n'.spec ≡ n.spec) × Advances n n'))

  quiet-Steps : (w w' : V.World) → SameMembers w w' → Steps w w'
  quiet-Steps w w' same k n there = (n, same k ∙ there, inl refl)

  -- The deferred update of the status
  status-Steps :
      (w v : V.World) (m d : Member)
      → S.lookup (key_of m.metadata) w ≡ some m
      → SameMembers w v
      → d.metadata ≡ m.metadata
      → Advances m d
      → Steps w (V.members.update_status d v).1
  status-Steps w v m d there same meta advances k n known =
      let reply = V.members.update_status d v in
      let key : key_of d.metadata ≡ key_of m.metadata = ap key_of meta in
      let found : S.lookup (key_of d.metadata) v ≡ some m =
        ap (λ j. S.lookup j v) key ∙ same (key_of m.metadata) ∙ there in
      elim (Answer-cases reply.0) [
        | inr (e, p) ↦ (n, K.status_refused p k ∙ same k ∙ known, inl refl)
        | inl (x, p) ↦ elim (same_key-cases k (key_of d.metadata)) [
          | inr apart ↦ (n, K.status_keeps_others apart ∙ same k ∙ known, inl refl)
          | inl e ↦
              let (spec, status, wrote) = K.status_writes {a = d} found p in
              let here : S.lookup k w ≡ some m = ap (λ j. S.lookup j w) (e ∙ key) ∙ there in
              let equal : m ≡ n = ground arith in
              (
                x,
                ap (λ j. S.lookup j reply.1) e ∙ wrote,
                inr (
                  spec ∙ ap (λ y. y.spec) equal,
                  subst (λ y. Advances y x) equal (Advances-status m d x status advances),
                ),
              )
        ]
      ]

  -- The member that a pass finds is not marked as broken.
  abbrev pub FindsWhole : NamespacedName → V.World → Type 0
  FindsWhole req w = (m : Member) → (V.members.get req w).0 ≡ ok m → m.spec.broken ≡ false

  -- What a pass does: it writes nothing, or the member that it works on advances or is repaired.
  pub data Reconciles (req : NamespacedName) (w w' : V.World) : Type 0 where
    idles : SameMembers w w' → Reconciles req w w'
    advances : Steps w w' → Reconciles req w w'
    heals :
        (m : Member)
        → S.lookup req w ≡ some m
        → m.spec.broken ≡ true
        → ((k : NamespacedName) → k ≢ req → S.lookup k w' ≡ S.lookup k w)
        → ((m' : Member) × (S.lookup req w' ≡ some m'))
        → Reconciles req w w'

  abbrev found_frame : Member → V.World → Fr V
  found_frame m w = record { world = w; self = m }

  -- The body of a pass and the deferred update
  whole-Steps :
      IsLawful V
      → (req : NamespacedName) (w v : V.World) (m : Member) → S.lookup req w ≡ some m
      → SameMembers w v
      → m.spec.broken ≡ false
      → Steps w (update_member_status V (reconcile_body V (found_frame m v)).1).1.world
  unfolding update_member_status
  whole-Steps L req w v m there same whole =
      let f = found_frame m v in
      let g = (reconcile_body V f).1 in
      let (meta, _, steps) = reconcile_body-Moves V L f whole in
      let goes : (update_member_status V g).1.world ≡ (V.members.update_status g.self g.world).1 =
        elim (Answer-cases (V.members.update_status g.self g.world).0) [
          | inl (x, p) ↦ ground arith
          | inr (e, p) ↦ ground arith
        ] in
      subst (Steps w) (sym goes) (
        status-Steps w g.world m g.self (ap (λ j. S.lookup j w) (S.lookup_keyed there) ∙ there)
          (λ k. reconcile_body-Quiet V S K f whole k ∙ same k) meta steps)

  broken-heals :
      IsLawful V
      → (req : NamespacedName) (w v : V.World) (m : Member) → S.lookup req w ≡ some m
      → SameMembers w v
      → m.spec.broken ≡ true
      → Reconciles req w (update_member_status V (reconcile_body V (found_frame m v)).1).1.world
  broken-heals L req w v m there same broken =
      let f = found_frame m v in
      let g = (reconcile_body V f).1 in
      let h = (update_member_status V g).1 in
      let name : key_of m.metadata ≡ req = S.lookup_keyed there in
      let (name', kept, (m', known)) =
        Confined-trans V S K f g h (reconcile_body-Confined V S K L f)
          (update_member_status-Confined V S K g)
          (m, ap (λ k. S.lookup k v) name ∙ same req ∙ there) in
      heals m there broken (λ k apart. kept k (λ e. apart (e ∙ name)) ∙ same k)
        (m', ap (λ k. S.lookup k h.world) (sym (name' ∙ name)) ∙ known)

  -- The pass that goes on to the body
  found-Reconciles :
      IsLawful V
      → (req : NamespacedName) (w v : V.World) (m : Member) → S.lookup req w ≡ some m
      → SameMembers w v
      → Reconciles req w (update_member_status V (reconcile_body V (found_frame m v)).1).1.world
  found-Reconciles L req w v m there same = elim (Bool-cases m.spec.broken) [
    | inl broken ↦ broken-heals L req w v m there same broken
    | inr whole ↦ advances (whole-Steps L req w v m there same whole)
  ]

  -- A pass leads to `P`, if reading alone does, and the body with the deferred update does.
  reconcile_ends :
      (P : V.World → Type 0) (req : NamespacedName) (w : V.World)
      → P (V.members.get req w).1
      → ((m : Member)
          → (V.members.get req w).0 ≡ ok m
          → P
              (update_member_status V
                (reconcile_body V (found_frame m (V.members.get req w).1)).1).1.world)
      → P (reconcile V req w).1
  unfolding reconcile reconcile_found
  reconcile_ends P req w reads works =
      let reply = V.members.get req w in
      elim (Answer-cases reply.0) [
        | inr (e, p) ↦
            let goes : (reconcile V req w).1 ≡ reply.1 = ground arith in subst P (sym goes) reads
        | inl (m, p) ↦ elim (Option-cases m.metadata.deletion_timestamp) [
          | inr (t, q) ↦
              let goes : (reconcile V req w).1 ≡ reply.1 = ground arith in subst P (sym goes) reads
          | inl q ↦
              let goes : (reconcile V req w).1
                  ≡ (update_member_status V (reconcile_body V (found_frame m reply.1)).1).1.world =
                ground arith in
              subst P (sym goes) (works m p)
        ]
      ]

  pub reconcile-Reconciles :
      IsLawful V → (req : NamespacedName) (w : V.World) → Reconciles req w (reconcile V req w).1
  reconcile-Reconciles L req w =
      reconcile_ends (Reconciles req w) req w (idles (K.get_keeps req w)) (λ m p.
        found-Reconciles L req w (V.members.get req w).1 m (K.get_reads p) (K.get_keeps req w))

  -- A pass that finds no marked member lets each member stay, or advance.
  pub reconcile-Steps :
      IsLawful V
      → (req : NamespacedName) (w : V.World) → FindsWhole req w
      → Steps w (reconcile V req w).1
  reconcile-Steps L req w whole =
      reconcile_ends (Steps w) req w (quiet-Steps w (V.members.get req w).1 (K.get_keeps req w))
        (λ m p.
          whole-Steps L req w (V.members.get req w).1 m (K.get_reads p) (K.get_keeps req w)
            (whole m p))

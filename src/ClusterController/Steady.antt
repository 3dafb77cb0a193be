-- ===== src/ClusterController/Steady.antt =====
-- What a whole pass over a cluster (controllers/cluster_controller.go, `Reconcile`) leaves true of the
-- stored members: what `RepairMembers` and `UpdateMembers` leave true, and reading does.
use etcdops.Base.{String, none, ◌≡◌, refl, sym, ◌∙◌, ap, subst, inl, inr, arith, Bool-cases}
use etcdops.Base.Int.{pos_part}
use etcdops.Kube.{ok, Frame, Action, NamespacedName}
use etcdops.Kube.Laws.{Answer-cases, Outcome-cases}
use etcdops.Types.Cluster.{
  Cluster, ClusterStatus, get_backup_schedule, get_service, get_ca_certificate, get_ca_issuer,
  is_minor_failure, should_update,
}
use etcdops.Env.{Env, IsLawful, OwnerKind, Ret, or_return}
use etcdops.Env.Store.{MemberStore, MemberCalls, ClusterCalls}
use etcdops.Controller.{skip_update}
use etcdops.ClusterController.{
  ensure_backup_schedule, ensure_service, ensure_ca, ensure_ca_certificate, ensure_ca_issuer,
  repair_if_minor, update_if_due, set_version, start_phase, update_status, reconcile_body,
  reconcile_found, reconcile,
}
use etcdops.ClusterController.Members.{ensure_members}
use etcdops.ClusterController.Observe.{observe}
use etcdops.ClusterController.Phase.{ensure_members_lem}
use etcdops.ClusterController.Keeps.{
  SameSpec, Keeps, or_return-cases, ensure_backup_schedule-Keeps, ensure_service-Keeps,
  ensure_ca-Keeps, ensure_members-Keeps, repair_if_minor-Keeps, update_if_due-Keeps,
  set_version-Keeps, reconcile_body-Keeps,
}
use etcdops.ClusterController.Update.{update_members}
use etcdops.ClusterController.Update.Pass.{AllStored}
use etcdops.ClusterController.Repair.{repair_members}
use etcdops.ClusterController.Repair.Effects.{SameLookups, observe-keeps}

module _ (V : Env) where
  abbrev Fr : Type 0
  Fr = Frame V.World Cluster

module _ (V : Env) (S : MemberStore V) (K : MemberCalls V S) (C : ClusterCalls V S) where
  -- A step leaves all stored members as they are.
  abbrev Quiet : Action V.World Cluster (Ret V) → Type 0
  Quiet a = (f : Fr V) → SameLookups V S K f.world (a f).1.world

  or_return-Quiet :
      (a b : Action V.World Cluster (Ret V)) → Quiet a → Quiet b → Quiet (or_return V a b)
  or_return-Quiet a b qa qb f k = elim (or_return-cases V a b f) [
    | inl e ↦ ap (λ g. S.lookup k g.world) e ∙ qa f k
    | inr e ↦ ap (λ u. S.lookup k u.1.world) e ∙ qb (a f).1 k ∙ qa f k
  ]

  ensure_backup_schedule-Quiet : Quiet (ensure_backup_schedule V)
  unfolding ensure_backup_schedule
  ensure_backup_schedule-Quiet f k =
      let a = get_backup_schedule f.self in
      elim (Answer-cases
        (V.set_controller_reference OwnerKind.cluster f.self.metadata a.metadata)) [
          | inr (e, p) ↦ ground arith
          | inl (meta, p) ↦
              ground (
                arith,
                C.schedules_create_keeps (record a { metadata = meta }) skip_update f.world k,
              )
        ]

  ensure_service-Quiet : Quiet (ensure_service V)
  unfolding ensure_service
  ensure_service-Quiet f k =
      let a = get_service f.self in
      elim (Answer-cases
        (V.set_controller_reference OwnerKind.cluster f.self.metadata a.metadata)) [
          | inr (e, p) ↦ ground arith
          | inl (meta, p) ↦
              ground (
                arith,
                C.services_create_keeps (record a { metadata = meta }) skip_update f.world k,
              )
        ]

  ensure_ca_certificate-Quiet : (issuer : String) → Quiet (ensure_ca_certificate V issuer)
  unfolding ensure_ca_certificate
  ensure_ca_certificate-Quiet issuer f k =
      let a = get_ca_certificate f.self issuer in
      elim (Answer-cases
        (V.set_controller_reference OwnerKind.cluster f.self.metadata a.metadata)) [
          | inr (e, p) ↦ ground arith
          | inl (meta, p) ↦ ground (
            arith,
            K.certificates_create_keeps (record a { metadata = meta }) skip_update f.world k,
          )
        ]

  ensure_ca_issuer-Quiet : Quiet (ensure_ca_issuer V)
  unfolding ensure_ca_issuer
  ensure_ca_issuer-Quiet f k =
      let a = get_ca_issuer f.self in
      elim (Answer-cases
        (V.set_controller_reference OwnerKind.cluster f.self.metadata a.metadata)) [
          | inr (e, p) ↦ ground arith
          | inl (meta, p) ↦
              ground
                (arith, C.issuers_create_keeps (record a { metadata = meta }) skip_update f.world k)
        ]

  ensure_ca-Quiet : (issuer : String) → Quiet (ensure_ca V issuer)
  unfolding ensure_ca
  ensure_ca-Quiet issuer =
      or_return-Quiet _ _ (ensure_ca_certificate-Quiet issuer)
        (or_return-Quiet _ _ ensure_ca_issuer-Quiet (λ f k. refl))

  set_version-Quiet : Quiet (set_version V)
  unfolding set_version
  set_version-Quiet f k = refl

  -- The reading of the members
  ensure_members-keeps :
      IsLawful V
      → (f : Fr V) → AllStored V S f.self f.world
      → SameLookups V S K f.world (ensure_members V f).1.world
  ensure_members-keeps L f all k =
      let n = pos_part f.self.spec.size in
      let kept = observe-keeps V S K n 0 f (λ j low high. all j (omega (arith, high))) k in
      elim (Outcome-cases (observe V n 0 f).0) [
        | inr p ↦ ground (arith, ensure_members_lem V L f, kept)
        | inl (ms, p) ↦ ground (arith, ensure_members_lem V L f, kept)
      ]

  -- What the two passes over the members leave true, of members that are all stored, and what depends
  -- on a cluster by its metadata and its spec alone
  pub record IsSteady (I : Cluster → V.World → Type 0) : Type 0 where
    pub same_spec : (c d : Cluster) (w : V.World) → SameSpec c d → I c w → I d w
    pub reads : (c : Cluster) (w w' : V.World) → SameLookups V S K w w' → I c w → I c w'
    pub all_stored : (c : Cluster) (w : V.World) → I c w → AllStored V S c w
    pub repairs : (f : Fr V) → I f.self f.world → I f.self (repair_members V f).1.world
    pub updates : (f : Fr V) → I f.self f.world → I f.self (update_members V f).1.world

  -- What does not depend on the status
  pub by_status :
      (I : Cluster → V.World → Type 0)
      → ((c : Cluster) (status : ClusterStatus) (w : V.World)
          → I c w
          → I (record c { status = status }) w)
      → (c d : Cluster) (w : V.World) → SameSpec c d
      → I c w
      → I d w
  by_status I free c d w (meta, spec) h =
      subst (λ s. I (record d { spec = s }) w) (sym spec)
        (subst (λ m. I (record d { metadata = m; spec = c.spec }) w) (sym meta)
          (free c d.status w h))

  module _ (I : Cluster → V.World → Type 0) (H : IsSteady I) where
    -- The step leaves `I` true.
    abbrev Holds : Action V.World Cluster (Ret V) → Type 0
    Holds a = (f : Fr V) → I f.self f.world → I (a f).1.self (a f).1.world

    or_return-Holds :
        (a b : Action V.World Cluster (Ret V)) → Holds a → Holds b → Holds (or_return V a b)
    or_return-Holds a b ha hb f true_now = elim (or_return-cases V a b f) [
      | inl e ↦ subst (λ g. I g.self g.world) (sym e) (ha f true_now)
      | inr e ↦ subst (λ u. I u.1.self u.1.world) (sym e) (hb (a f).1 (ha f true_now))
    ]

    Keeps-Holds :
        (a : Action V.World Cluster (Ret V))
        → Keeps V a
        → ((f : Fr V) → I f.self f.world → I f.self (a f).1.world)
        → Holds a
    Keeps-Holds a keeps steady f true_now =
        H.same_spec f.self (a f).1.self (a f).1.world (keeps f) (steady f true_now)

    Quiet-Holds : (a : Action V.World Cluster (Ret V)) → Keeps V a → Quiet a → Holds a
    Quiet-Holds a keeps quiet =
        Keeps-Holds a keeps (λ f true_now. H.reads f.self f.world (a f).1.world (quiet f) true_now)

    repair_if_minor-Holds : Holds (repair_if_minor V)
    unfolding repair_if_minor
    repair_if_minor-Holds = Keeps-Holds (repair_if_minor V) (repair_if_minor-Keeps V) at_world
      where
        at_world : (f : Fr V) → I f.self f.world → I f.self (repair_if_minor V f).1.world
        at_world f true_now = elim (Bool-cases (is_minor_failure f.self.status.phase)) [
          | inl h ↦
              let goes : repair_if_minor V f ≡ repair_members V f = ground arith in
              subst (λ u. I f.self u.1.world) (sym goes) (H.repairs f true_now)
          | inr h ↦
              let goes : (repair_if_minor V f).1 ≡ f = ground arith in
              subst (λ g. I f.self g.world) (sym goes) true_now
        ]

    update_if_due-Holds : IsLawful V → Holds (update_if_due V)
    unfolding update_if_due
    update_if_due-Holds L = Keeps-Holds (update_if_due V) (update_if_due-Keeps V L) at_world
      where
        at_world : (f : Fr V) → I f.self f.world → I f.self (update_if_due V f).1.world
        at_world f true_now = elim (Bool-cases (should_update f.self)) [
          | inl h ↦
              let goes : update_if_due V f ≡ update_members V f = ground arith in
              subst (λ u. I f.self u.1.world) (sym goes) (H.updates f true_now)
          | inr h ↦
              let goes : (update_if_due V f).1 ≡ f = ground arith in
              subst (λ g. I f.self g.world) (sym goes) true_now
        ]

    reconcile_body-Holds : IsLawful V → (issuer : String) → Holds (reconcile_body V issuer)
    unfolding reconcile_body
    reconcile_body-Holds L issuer =
        or_return-Holds _ _
          (Quiet-Holds (ensure_backup_schedule V) (ensure_backup_schedule-Keeps V)
            ensure_backup_schedule-Quiet)
          (or_return-Holds _ _
            (Quiet-Holds (ensure_service V) (ensure_service-Keeps V) ensure_service-Quiet)
            (or_return-Holds _ _
              (Quiet-Holds (ensure_ca V issuer) (ensure_ca-Keeps V issuer) (ensure_ca-Quiet issuer))
              (or_return-Holds _ _
                (Keeps-Holds (ensure_members V) (ensure_members-Keeps V) (λ f true_now.
                  H.reads f.self f.world (ensure_members V f).1.world
                    (ensure_members-keeps L f (H.all_stored f.self f.world true_now)) true_now))
                (or_return-Holds _ _ repair_if_minor-Holds (
                  or_return-Holds _ _ (update_if_due-Holds L)
                    (Quiet-Holds (set_version V) (set_version-Keeps V) (set_version-Quiet)))))))

    -- A pass over a cluster that is not being deleted leaves `I` true of it.
    pub reconcile-Holds :
        IsLawful V
        → (issuer : String) (req : NamespacedName) (c : Cluster) (w : V.World)
          (status : ClusterStatus)
        → (V.clusters.get req w).0 ≡ ok (record c { status = status })
        → c.metadata.deletion_timestamp ≡ none
        → I c w
        → I c (reconcile V issuer req w).1
    unfolding reconcile reconcile_found start_phase update_status
    reconcile-Holds L issuer req c w status got alive true_now =
        let d : Cluster = start_phase (record c { status = status }) in
        let v = (V.clusters.get req w).1 in
        let f : Fr V = record { world = v; self = d } in
        let g = (reconcile_body V issuer f).1 in
        let spec : SameSpec c d = (ground arith, ground arith) in
        let goes : (reconcile V issuer req w).1 ≡ (V.clusters.update_status g.self g.world).1 =
          ground arith in
        let at_start : I d v =
          H.same_spec c d v spec (H.reads c w v (C.clusters_get_keeps req w) true_now) in
        let at_end : I g.self g.world = reconcile_body-Holds L issuer f at_start in
        let (meta', spec') = reconcile_body-Keeps V L issuer f in
        let back : SameSpec g.self c = (sym (meta' ∙ spec.0), sym (spec' ∙ spec.1)) in
        subst (I c) (sym goes) (
          H.reads c g.world (V.clusters.update_status g.self g.world).1
            (C.clusters_status_keeps g.self g.world) (H.same_spec g.self c g.world back at_end))

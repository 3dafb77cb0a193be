-- ===== src/ClusterController/Untouched.antt =====
-- The steps of `Reconcile` make no call that writes a cluster (controllers/cluster_controller.go).
use etcdops.Base.{
  ℕ, zero, suc, String, Option, none, some, ◌≡◌, refl, ◌∙◌, ap, inl, inr, arith, Option-cases,
}
use etcdops.Base.Int.{pos_part}
use etcdops.Kube.{Frame, Action, NamespacedName}
use etcdops.Kube.Laws.{Answer-cases, Outcome-cases}
use etcdops.Types.Cluster.{
  Cluster, get_backup_schedule, get_service, get_ca_certificate, get_ca_issuer, get_member,
}
use etcdops.Types.Member.{Member}
use etcdops.Env.{Env, OwnerKind, Ret, or_return}
use etcdops.Env.Clusters.{ClusterStore}
use etcdops.Controller.{skip_update}
use etcdops.ClusterController.{
  ensure_backup_schedule, ensure_service, ensure_ca, ensure_ca_certificate, ensure_ca_issuer,
}
use etcdops.ClusterController.Members.{
  ensure_member, ensure_members, tally_members, no_tally, Tally, tally_member,
}
use etcdops.ClusterController.Observe.{ensure_member-cases, moved}
use etcdops.ClusterController.Keeps.{or_return-cases}
use etcdops.ClusterController.Update.{
  set_member_version, check_version, set_certificate_update, update_member, finish_update,
  update_from, update_members,
}
use etcdops.ClusterController.Repair.{
  find_failed, repair_candidate, repair_members, consider, Candidate, mark_broken,
}
use etcdops.ClusterController.Repair.Safety.{first_candidate, clock_read}

module _ (V : Env) (S : ClusterStore V) where
  abbrev Fr : Type 0
  Fr = Frame V.World Cluster

  -- The stored clusters stay as they are.
  abbrev pub SameClusters : V.World → V.World → Type 0
  SameClusters w w' = (k : NamespacedName) → S.lookup k w' ≡ S.lookup k w

  -- A step leaves all stored clusters as they are.
  abbrev pub Quiet : {A : Type 0} → Action V.World Cluster A → Type 0
  Quiet a = (f : Fr) → SameClusters f.world (a f).1.world

  pub or_return-Quiet :
      (a b : Action V.World Cluster (Ret V)) → Quiet a → Quiet b → Quiet (or_return V a b)
  or_return-Quiet a b qa qb f k = elim (or_return-cases V a b f) [
    | inl e ↦ ap (λ g. S.lookup k g.world) e ∙ qa f k
    | inr e ↦ ap (λ u. S.lookup k u.1.world) e ∙ qb (a f).1 k ∙ qa f k
  ]

  pub ensure_backup_schedule-Quiet : Quiet (ensure_backup_schedule V)
  unfolding ensure_backup_schedule
  ensure_backup_schedule-Quiet f k =
      let a = get_backup_schedule f.self in
      elim (Answer-cases
        (V.set_controller_reference OwnerKind.cluster f.self.metadata a.metadata)) [
          | inr (e, p) ↦ ground arith
          | inl (meta, p) ↦
              ground (
                arith,
                S.schedules_create_keeps (record a { metadata = meta }) skip_update f.world k,
              )
        ]

  pub ensure_service-Quiet : Quiet (ensure_service V)
  unfolding ensure_service
  ensure_service-Quiet f k =
      let a = get_service f.self in
      elim (Answer-cases
        (V.set_controller_reference OwnerKind.cluster f.self.metadata a.metadata)) [
          | inr (e, p) ↦ ground arith
          | inl (meta, p) ↦
              ground (
                arith,
                S.services_create_keeps (record a { metadata = meta }) skip_update f.world k,
              )
        ]

  ensure_ca_certificate-Quiet : (issuer : String) → Quiet (ensure_ca_certificate V issuer)
  unfolding ensure_ca_certificate
  ensure_ca_certificate-Quiet issuer f k =
      let a = get_ca_certificate f.self issuer in
      elim (Answer-cases
        (V.set_controller_reference OwnerKind.cluster f.self.metadata a.metadata)) [
          | inr (e, p) ↦ ground arith
          | inl (meta, p) ↦ ground (
            arith,
            S.certificates_create_keeps (record a { metadata = meta }) skip_update f.world k,
          )
        ]

  ensure_ca_issuer-Quiet : Quiet (ensure_ca_issuer V)
  unfolding ensure_ca_issuer
  ensure_ca_issuer-Quiet f k =
      let a = get_ca_issuer f.self in
      elim (Answer-cases
        (V.set_controller_reference OwnerKind.cluster f.self.metadata a.metadata)) [
          | inr (e, p) ↦ ground arith
          | inl (meta, p) ↦
              ground
                (arith, S.issuers_create_keeps (record a { metadata = meta }) skip_update f.world k)
        ]

  pub ensure_ca-Quiet : (issuer : String) → Quiet (ensure_ca V issuer)
  unfolding ensure_ca
  ensure_ca-Quiet issuer =
      or_return-Quiet _ _ (ensure_ca_certificate-Quiet issuer)
        (or_return-Quiet _ _ ensure_ca_issuer-Quiet (λ f k. refl))

  ensure_member-Quiet : (i : ℕ) → Quiet (ensure_member V i)
  unfolding ensure_member
  ensure_member-Quiet i f k =
      let a = get_member f.self i in
      elim (Answer-cases
        (V.set_controller_reference OwnerKind.cluster f.self.metadata a.metadata)) [
          | inr (e, p) ↦ ground arith
          | inl (meta, p) ↦
              ground
                (arith, S.members_create_keeps (record a { metadata = meta }) skip_update f.world k)
        ]

  tally_members-Quiet : (n i : ℕ) (t : Tally V) → Quiet (tally_members V n i t)
  unfolding tally_members
  tally_members-Quiet zero i t f k = refl
  tally_members-Quiet (suc n) i t f k = elim (ensure_member-cases V i f) [
    | inr (e, w, p) ↦ ground (arith, ensure_member-Quiet i f k)
    | inl (m, w, p) ↦ ground (
      arith,
      ensure_member-Quiet i f k,
      tally_members-Quiet n (suc i) (tally_member V none m t) (moved V f w) k,
    )
  ]

  pub ensure_members-Quiet : Quiet (ensure_members V)
  unfolding ensure_members
  ensure_members-Quiet f k =
      ground (arith, tally_members-Quiet (pos_part f.self.spec.size) 0 (no_tally V) f k)

  find_failed-Quiet : (n i : ℕ) (x : Candidate) → Quiet (find_failed V n i x)
  unfolding find_failed
  find_failed-Quiet zero i x f k = refl
  find_failed-Quiet (suc n) i x f k = elim (ensure_member-cases V i f) [
    | inr (e, w, p) ↦ ground (arith, ensure_member-Quiet i f k)
    | inl (m, w, p) ↦ ground (
      arith,
      ensure_member-Quiet i f k,
      find_failed-Quiet n (suc i) (consider m x) (moved V f w) k,
    )
  ]

  repair_candidate-Quiet : (x : Candidate) → Quiet (repair_candidate V x)
  unfolding repair_candidate
  repair_candidate-Quiet x f k = elim (Option-cases x.failed_member) [
    | inl p ↦ ground arith
    | inr (m, p) ↦ ground (arith, S.members_update_keeps (mark_broken m) f.world k)
  ]

  pub repair_members-Quiet : Quiet (repair_members V)
  unfolding repair_members
  repair_members-Quiet f k =
      let n = pos_part f.self.spec.size in
      let run = find_failed V n 0 (first_candidate V f) (clock_read V f) in
      let clock = S.now_keeps f.world k in
      let loop = find_failed-Quiet n 0 (first_candidate V f) (clock_read V f) k in
      elim (Outcome-cases run.0) [
        | inr crash ↦ ground (arith, clock, loop)
        | inl (none, stop) ↦ ground (arith, clock, loop)
        | inl (some x, end) ↦ ground (arith, clock, loop, repair_candidate-Quiet x run.1 k)
      ]

  check_version-Quiet :
      (c : Cluster) (m : Member) (next : Action V.World Cluster (Ret V))
      → Quiet next
      → Quiet (check_version V c m next)
  unfolding check_version
  check_version-Quiet c m next q f k = ground (arith, q f k)

  set_certificate_update-Quiet :
      (c : Cluster) (m : Member) (next : Action V.World Cluster (Ret V))
      → Quiet next
      → Quiet (set_certificate_update V c m next)
  unfolding set_certificate_update
  set_certificate_update-Quiet c m next q f k =
      let a : Member = record m {
        spec = record (m.spec) { certificate_update = m.status.certificate_expires };
      } in
      let reply = V.members.update a f.world in
      elim (Answer-cases reply.0) [
        | inr (e, p) ↦ ground (arith, S.members_update_keeps a f.world k)
        | inl (m', p) ↦ ground (
          arith,
          S.members_update_keeps a f.world k,
          check_version-Quiet c m' next q (moved V f reply.1) k,
        )
      ]

  update_member-Quiet :
      (c : Cluster) (m : Member) (next : Action V.World Cluster (Ret V))
      → Quiet next
      → Quiet (update_member V c m next)
  unfolding update_member set_member_version
  update_member-Quiet c m next q f k = ground (
    arith,
    S.members_update_keeps (record m { spec = record (m.spec) { version = c.spec.version } })
        f.world k,
    set_certificate_update-Quiet c m next q f k,
    check_version-Quiet c m next q f k,
  )

  update_from-Quiet : (n i : ℕ) (errs : Option V.Error) → Quiet (update_from V n i errs)
  unfolding update_from finish_update
  update_from-Quiet zero i none f k = refl
  update_from-Quiet zero i (some e) f k = refl
  update_from-Quiet (suc n) i errs f k = elim (ensure_member-cases V i f) [
    | inr (e, w, p) ↦ ground (arith, ensure_member-Quiet i f k)
    | inl (m, w, p) ↦ ground (
      arith,
      ensure_member-Quiet i f k,
      update_member-Quiet f.self m (update_from V n (suc i) (V.append_error errs none))
          (update_from-Quiet n (suc i) (V.append_error errs none)) (moved V f w) k,
    )
  ]

  pub update_members-Quiet : Quiet (update_members V)
  unfolding update_members
  update_members-Quiet f = update_from-Quiet (pos_part f.self.spec.size) 0 none f

-- ===== src/ClusterController/Update/Asking.antt =====
-- One pass of `UpdateMembers` (controllers/cluster_controller.go) asks at most one member, behind
-- members that run the cluster's version.
use etcdops.Base.{
  ℕ, ◌≤◌, ◌<◌, false, some, ◌≡◌, refl, sym, ◌∙◌, ap, subst, inl, inr, arith, str_eq, eq_iff,
}
use etcdops.Base.Int.{pos_part}
use etcdops.Kube.{Outcome}
use etcdops.Kube.Laws.{Answer-cases}
use etcdops.Types.Cluster.{Cluster}
use etcdops.Types.Member.{Member}
use etcdops.Env.{Env, IsLawful, Ret}
use etcdops.Env.Store.{MemberStore, key_of}
use etcdops.ClusterController.Update.{update_members}
use etcdops.ClusterController.Update.Rolling.{
  ask_version, ask_certificates, Reads, Fr, Stops, unread, waits, asks_version, asks_certificates,
  withdrawn_waits, refused, stops, completes, update_members-Rolls,
}
use etcdops.ClusterController.Update.Effects.{
  stored, member_key, SameVersions, SameVersions-trans, SameVersions-lookup, reading, update-stored,
  update-SameVersions, ensure_member-keeps,
}
use etcdops.ClusterController.Update.Pass.{
  AllStored, CurrentBetween, AllSettled-CurrentBetween, Passes, rests, asks, CurrentBetween-back,
  after_same,
}

module _ (V : Env) (S : MemberStore V) where
  -- The member that a pass has read is the one that is stored, also behind the reading.
  pub behind_reading :
      (c : Cluster) (j : ℕ) (f h : Fr V) {x m : Member}
      → Reads V j f x h
      → f.self ≡ c
      → stored V S c f.world j ≡ some m
      → (x ≡ m)
        × SameVersions V S c f.world h.world
        × (stored V S c h.world j ≡ some x)
        × (key_of x.metadata ≡ member_key c j)
  behind_reading c j f h reads e known =
      let (same, _, kept) = reading V S j f h reads (rw (sym e) at known) in
      let there = kept (member_key c j) ∙ known ∙ ap some (sym same) in
      (same, SameVersions-lookup V S c f.world h.world kept, there, S.lookup_keyed there)

  -- A write of the request for certificates changes no version.
  certificates-Passes :
      (c : Cluster) (j : ℕ) (f h g : Fr V) {x m : Member}
      → Reads V j f x h
      → f.self ≡ c
      → stored V S c f.world j ≡ some m
      → (V.members.update (ask_certificates x) h.world).1 ≡ g.world
      → Passes V S c f.world g.world
  certificates-Passes c j f h g {x} reads e known wrote =
      let (_, first, there, keyed) = behind_reading c j f h reads e known in
      let last : SameVersions V S c h.world (V.members.update (ask_certificates x) h.world).1 =
        update-SameVersions V S c j (ask_certificates x) h.world keyed there refl in
      rests (SameVersions-trans V S c f.world h.world g.world first (rw wrote at last))

  -- A write of the version is refused, or it asks the member.
  version-Passes :
      (c : Cluster) (j : ℕ) (f h : Fr V) {x m : Member}
      → Reads V j f x h
      → f.self ≡ c
      → j < pos_part c.spec.size
      → CurrentBetween V S c 0 j f.world
      → stored V S c f.world j ≡ some m
      → str_eq c.spec.version x.spec.version ≡ false
      → Passes V S c f.world (V.members.update (ask_version c x) h.world).1
  version-Passes c j f h {x} {m} reads e small current known old =
      let (same, first, there, keyed) = behind_reading c j f h reads e known in
      let reply = V.members.update (ask_version c x) h.world in
      let found : S.lookup (key_of x.metadata) h.world ≡ some x = rw keyed there in
      elim (Answer-cases reply.0) [
        | inr (failure, p) ↦ rests (
            SameVersions-trans V S c f.world h.world reply.1 first
              (SameVersions-lookup V S c h.world reply.1 (S.update_refused p)))
        | inl (y, p) ↦
            let (spec, status, wrote) = S.update_writes {a = ask_version c x} found p in
            asks j m y small current known
              (λ q. ground (arith, eq_iff c.spec.version x.spec.version))
              (subst (λ key. S.lookup key reply.1 ≡ some y) keyed wrote) (ap (λ z. z.version) spec)
              (ap (λ z. z.version) status ∙ ap (λ z. z.status.version) same)
              (λ k n apart stored_k.
                let (n', there', (spec', status')) = first k n stored_k in
                let (z, further, how) =
                  update-stored V S c j k (ask_version c x) h.world keyed there there' in
                (
                  z,
                  further,
                  elim how [
                    | inr (at_j, _, _) ↦ absurd (apart at_j)
                    | inl kept ↦ (
                      ap (λ a. a.spec.version) kept ∙ spec',
                      ap (λ a. a.status.version) kept ∙ status',
                    )
                  ],
                ))
      ]

  Stops-Passes :
      (c : Cluster) (j : ℕ) {f g : Fr V} {o : Outcome (Ret V)} {m : Member}
      → Stops V j f o g
      → f.self ≡ c
      → j < pos_part c.spec.size
      → CurrentBetween V S c 0 j f.world
      → stored V S c f.world j ≡ some m
      → Passes V S c f.world g.world
  Stops-Passes c j {f} {g} (unread failure fails _) e small current known =
      let (_, kept) = ensure_member-keeps V S j f (rw (sym e) at known) in
      rests (
        SameVersions-lookup V S c f.world g.world
          (λ k. ap (λ u. S.lookup k u.1.world) (sym fails) ∙ kept k))
  Stops-Passes c j {f} {g} (waits x reads _ _) e small current known =
      let (_, same, _, _) = behind_reading c j f g reads e known in rests same
  Stops-Passes c j {f} {g} (asks_version x h reads _ old _ wrote _) e small current known =
      rw wrote (rw e (version-Passes c j f h reads e small current known (rw e at old)))
  Stops-Passes c j {f} {g} (asks_certificates x x' h reads _ _ wrote _ _ _) e small current known =
      certificates-Passes c j f h g reads e known (ap (λ u. u.1) wrote)
  Stops-Passes c j {f} {g} (withdrawn_waits x x' h reads _ _ wrote _ _ _) e small current known =
      certificates-Passes c j f h g reads e known (ap (λ u. u.1) wrote)
  Stops-Passes c j {f} {g} (refused x h failure reads _ wrote _ _) e small current known =
      certificates-Passes c j f h g reads e known (ap (λ u. u.1) wrote)

  -- A pass of `UpdateMembers` changes no member's versions, or it asks one member for the cluster's
  -- version, behind members that run it.
  pub update_members-Passes :
      IsLawful V
      → (c : Cluster) (f : Fr V) → f.self ≡ c
      → AllStored V S c f.world
      → Passes V S c f.world (update_members V f).1.world
  update_members-Passes L c f e all = elim (update_members-Rolls V L f) [
    | completes j h settled end _ same ↦
        let (_, kept, _) =
          AllSettled-CurrentBetween V S c settled e
            (subst (λ d. j ≤ pos_part d.spec.size) e (omega arith)) all in
        rests (subst (λ g. SameVersions V S c f.world g.world) (sym same) kept)
    | stops j h settled le stop ↦
        let small : j < pos_part c.spec.size =
          subst (λ d. j < pos_part d.spec.size) e (omega arith) in
        let in_size : j ≤ pos_part c.spec.size = omega (arith, small) in
        let (self, kept, current) = AllSettled-CurrentBetween V S c settled e in_size all in
        let (m, known) = all j small in
        let (m', known', _) = kept j m known in
        after_same V S c f.world h.world (update_members V f).1.world kept all (
          Stops-Passes c j stop self small
            (CurrentBetween-back V S c 0 j f.world h.world kept current all in_size) known')
  ]

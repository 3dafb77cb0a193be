-- ===== src/ClusterController/Update/Calm.antt =====
-- A pass of `UpdateMembers` (controllers/cluster_controller.go) over members at rest, with a server
-- that has no fault.
use etcdops.Base.{
  ℕ, suc, ◌≤◌, ◌<◌, true, false, some, ◌≡◌, ◌≢◌, refl, sym, ◌∙◌, ap, subst, inl, inr, arith, str_eq,
  eq_iff,
}
use etcdops.Base.Int.{pos_part}
use etcdops.Kube.{ok, Outcome, NamespacedName}
use etcdops.Types.Cluster.{Cluster}
use etcdops.Types.Member.{Member}
use etcdops.Env.{Env, Ret}
use etcdops.Env.Store.{MemberStore, key_of}
use etcdops.ClusterController.Update.Rolling.{
  is_busy, certificates_due, ask_version, Fr, Reads, Settles, current, withdrawn, AllSettled, here,
  next, Stops, unread, waits, asks_version, asks_certificates, withdrawn_waits, refused,
}
use etcdops.ClusterController.Update.Effects.{stored, member_key, reading}
use etcdops.ClusterController.Update.Pass.{AllSettled-le}
use etcdops.ClusterController.Update.Asking.{behind_reading}

-- The API server has no fault: it reads each member that it has, and takes each write of one.
pub record Willing (V : Env) (S : MemberStore V) : Type 0 where
  pub reads :
      (i : ℕ) (f : Fr V) {m : Member}
      → stored V S f.self f.world i ≡ some m
      → (x : Member) × (g : Fr V) × Reads V i f x g
  pub writes :
      (a : Member) (w : V.World) {m : Member}
      → S.lookup (key_of a.metadata) w ≡ some m
      → (x : Member) × ((V.members.update a w).0 ≡ ok x)

module _ (V : Env) (S : MemberStore V) where
  -- A member at rest: it is not busy, runs the version that it was asked for, and was not asked for
  -- certificates.
  abbrev pub IsCalm : Member → Type 0
  IsCalm m =
      (is_busy m ≡ false)
      × (m.status.version ≡ m.spec.version)
      × (m.spec.certificate_update ≡ false)

  abbrev pub AllCalm : Cluster → V.World → Type 0
  AllCalm c w =
      (k : ℕ) → k < pos_part c.spec.size → (m : Member) × (stored V S c w k ≡ some m) × IsCalm m

  -- No certificates are due for a member that is calm.
  not_due :
      (c : Cluster) (i : ℕ) (f h : Fr V) {x m : Member}
      → Reads V i f x h
      → certificates_due f.self x ≡ true
      → f.self ≡ c
      → c.status.certificate_expires ≡ false
      → stored V S c f.world i ≡ some m
      → IsCalm m
      → ⊥
  not_due c i f h {x} reads due e valid known (_, _, none_asked) =
      let (same, _, _) = reading V S i f h reads (rw (sym e) at known) in
      let wanted : x.spec.certificate_update ≡ false =
        ap (λ y. y.spec.certificate_update) same ∙ none_asked in
      let expired : f.self.status.certificate_expires ≡ false =
        ap (λ y. y.status.certificate_expires) e ∙ valid in
      ground arith

  Settles-reads :
      (c : Cluster) (i : ℕ) (f g : Fr V) {m : Member}
      → Settles V i f g
      → f.self ≡ c
      → c.status.certificate_expires ≡ false
      → stored V S c f.world i ≡ some m
      → IsCalm m
      → (g.self ≡ c) × ((k : NamespacedName) → S.lookup k g.world ≡ S.lookup k f.world)
  Settles-reads c i f g (current x reads _ _ _) e valid known calm =
      let (same, self, kept) = reading V S i f g reads (rw (sym e) at known) in (self ∙ e, kept)
  Settles-reads c i f g (withdrawn x x' h reads _ due _ _ _ _) e valid known calm =
      absurd (not_due c i f h reads due e valid known calm)

  -- A pass over members that are calm settles them by reading alone.
  pub AllSettled-reads :
      {i j : ℕ} (c : Cluster) (f h : Fr V)
      → AllSettled V i j f h
      → f.self ≡ c
      → c.status.certificate_expires ≡ false
      → j ≤ pos_part c.spec.size
      → AllCalm c f.world
      → (h.self ≡ c) × ((k : NamespacedName) → S.lookup k h.world ≡ S.lookup k f.world)
  AllSettled-reads c f h here e valid le calm = (e, λ k. refl)
  AllSettled-reads c f h (next {i = i} {j = j} {g = g} settled later) e valid le calm =
      let (m, known, rest) = calm i (omega (arith, AllSettled-le V S later)) in
      let (self, kept) = Settles-reads c i f g settled e valid known rest in
      let (self', kept') =
        AllSettled-reads {i = suc i} {j = j} c g h later self valid le (λ k small.
          let (n, there, calm_n) = calm k small in (n, kept (member_key c k) ∙ there, calm_n)) in
      (self', λ k. kept' k ∙ kept k)

  -- Where it stops, it asks for the version.
  pub Stops-asks :
      Willing V S
      → (c : Cluster) (j : ℕ) (h g : Fr V) {o : Outcome (Ret V)} {m : Member} → Stops V j h o g
      → h.self ≡ c
      → c.status.certificate_expires ≡ false
      → stored V S c h.world j ≡ some m
      → IsCalm m
      → (m.spec.version ≢ c.spec.version)
        × ((m' : Member) × (stored V S c g.world j ≡ some m') × (m'.spec.version ≡ c.spec.version))
  Stops-asks W c j h g (unread failure fails _) e valid known calm =
      let (x, g', reads) = W.reads j h (rw (sym e) at known) in absurd (ground arith)
  Stops-asks W c j h g (waits x reads how _) e valid known (free, runs, _) =
      let (same, _, _, _) = behind_reading V S c j h g reads e known in
      absurd (elim how [
        | inl busy ↦ ground arith
        | inr ((_, asked), behind) ↦
            let equal : x.status.version ≡ x.spec.version =
              ap (λ y. y.status.version) same ∙ runs ∙ ap (λ y. y.spec.version) (sym same) in
            ground (
              arith,
              eq_iff h.self.spec.version x.spec.version,
              eq_iff h.self.spec.version x.status.version,
            )
      ])
  Stops-asks W c j h g (asks_version x h' reads _ old _ wrote _) e valid known calm =
      let (same, first, there, keyed) = behind_reading V S c j h h' reads e known in
      let found : S.lookup (key_of x.metadata) h'.world ≡ some x = rw keyed there in
      let (y, took) = W.writes (ask_version c x) h'.world found in
      let (spec, _, stored_y) = S.update_writes {a = ask_version c x} found took in
      let old' : str_eq c.spec.version x.spec.version ≡ false = rw e at old in
      let wrote' : g.world ≡ (V.members.update (ask_version c x) h'.world).1 = rw e at wrote in
      (
        λ q. ground (arith, eq_iff c.spec.version x.spec.version),
        (
          y,
          rw wrote' (
              subst (λ k. S.lookup k (V.members.update (ask_version c x) h'.world).1 ≡ some y) keyed
                stored_y),
          ap (λ z. z.version) spec,
        ),
      )
  Stops-asks W c j h g (asks_certificates x x' h' reads _ due _ _ _ _) e valid known calm =
      absurd (not_due c j h h' reads due e valid known calm)
  Stops-asks W c j h g (withdrawn_waits x x' h' reads _ due _ _ _ _) e valid known calm =
      absurd (not_due c j h h' reads due e valid known calm)
  Stops-asks W c j h g (refused x h' failure reads due _ _ _) e valid known calm =
      absurd (not_due c j h h' reads due e valid known calm)

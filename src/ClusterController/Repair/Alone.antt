-- ===== src/ClusterController/Repair/Alone.antt =====
-- Which members are in repair, before and behind a pass of `RepairMembers` and a pass of
-- `UpdateMembers` (controllers/cluster_controller.go).
use etcdops.Base.{
  ℕ, suc, ◌≤◌, ◌<◌, Bool, true, ◌||◌, some, ◌≡◌, refl, sym, ◌∙◌, ap, subst, inl, inr, arith,
}
use etcdops.Base.Int.{pos_part}
use etcdops.Kube.{Outcome, NamespacedName}
use etcdops.Types.Cluster.{Cluster}
use etcdops.Types.Member.{Member, is_creating}
use etcdops.Env.{Env, IsLawful, Ret}
use etcdops.Env.Store.{MemberStore, MemberCalls, key_of}
use etcdops.ClusterController.Update.{update_members}
use etcdops.ClusterController.Update.Rolling.{
  ask_version, ask_certificates, Reads, Fr, Settles, current, withdrawn, AllSettled, here, next,
  Stops, unread, waits, asks_version, asks_certificates, withdrawn_waits, refused, stops, completes,
  update_members-Rolls,
}
use etcdops.ClusterController.Update.Effects.{
  stored, member_key, reading, update-stored, ensure_member-keeps,
}
use etcdops.ClusterController.Update.Pass.{AllStored, AllSettled-le}
use etcdops.ClusterController.Repair.Effects.{Repairs, looks, marks}

-- The member is being created, or is marked for repair.
abbrev pub in_repair : Member → Bool
in_repair m = is_creating m || m.spec.broken

module _ (V : Env) (S : MemberStore V) where
  -- The stored members stay stored, and none of them gets into repair.
  abbrev pub NoneEnters : Cluster → V.World → V.World → Type 0
  NoneEnters c w w' =
      (k : ℕ) (n : Member)
      → stored V S c w k ≡ some n
      → (n' : Member) × (stored V S c w' k ≡ some n') × (in_repair n' ≡ true → in_repair n ≡ true)

  pub NoneEnters-trans :
      (c : Cluster) (u v w : V.World) → NoneEnters c u v → NoneEnters c v w → NoneEnters c u w
  NoneEnters-trans c u v w first second k n h =
      let (n', there, back) = first k n h in
      let (x, further, back') = second k n' there in (x, further, λ q. back (back' q))

  pub NoneEnters-lookup :
      (c : Cluster) (w w' : V.World)
      → ((k : NamespacedName) → S.lookup k w' ≡ S.lookup k w)
      → NoneEnters c w w'
  NoneEnters-lookup c w w' same k n h = (n, same (member_key c k) ∙ h, λ q. q)

  -- All members of the cluster are stored, and at most one of them is in repair.
  abbrev pub OneInRepair : Cluster → V.World → Type 0
  OneInRepair c w =
      AllStored V S c w
      × ((k l : ℕ) (m n : Member)
          → k < pos_part c.spec.size
          → l < pos_part c.spec.size
          → stored V S c w k ≡ some m
          → stored V S c w l ≡ some n
          → in_repair m ≡ true
          → in_repair n ≡ true
          → k ≡ l)

  pub NoneEnters-OneInRepair :
      (c : Cluster) (w w' : V.World) → NoneEnters c w w' → OneInRepair c w → OneInRepair c w'
  NoneEnters-OneInRepair c w w' keeps (all, alone) = (
    λ k small.
        let (n, there) = all k small in let (n', there', _) = keeps k n there in (n', there'),
    λ k l m' n' small_k small_l there_k' there_l' hurt_k hurt_l.
        let (m, there_k) = all k small_k in
        let (n, there_l) = all l small_l in
        let (x, there_x, back_k) = keeps k m there_k in
        let (y, there_y, back_l) = keeps l n there_l in
        let same_k : x ≡ m' = ground arith in
        let same_l : y ≡ n' = ground arith in
        alone k l m n small_k small_l there_k there_l (back_k (ap in_repair same_k ∙ hurt_k))
          (back_l (ap in_repair same_l ∙ hurt_l)),
  )

  -- A pass of `RepairMembers` puts a member into repair only if no other one is.
  pub Repairs-OneInRepair :
      (K : MemberCalls V S) (c : Cluster) (w w' : V.World)
      → Repairs V S K c w w'
      → OneInRepair c w
      → OneInRepair c w'
  Repairs-OneInRepair K c w w' (looks same) alone =
      NoneEnters-OneInRepair c w w' (NoneEnters-lookup c w w' same) alone
  Repairs-OneInRepair K c w w' (marks j m small there calm wrote) (all, _) =
      let at_j : (k : ℕ) (n' : Member)
          → k < pos_part c.spec.size
          → stored V S c w' k ≡ some n'
          → in_repair n' ≡ true
          → k ≡ j =
        λ k n' small_k there_k' hurt.
          let (n, there_k) = all k small_k in
          let (x, there_x, how) = wrote k n there_k in
          let same : x ≡ n' = ground arith in
          elim how [
            | inr (e, _, _) ↦ e
            | inl kept ↦
                let (grown, whole) = calm k n small_k there_k in
                let hurt_n : in_repair n ≡ true = ap in_repair (sym kept ∙ same) ∙ hurt in
                absurd (ground arith)
          ] in
      (
        λ k small_k.
            let (n, there_k) = all k small_k in
            let (x, there_x, _) = wrote k n there_k in (x, there_x),
        λ k l m' n' small_k small_l there_k there_l hurt_k hurt_l.
            at_j k m' small_k there_k hurt_k ∙ sym (at_j l n' small_l there_l hurt_l),
      )

  -- A write of a member that was read, with the mark that it had
  writing :
      (c : Cluster) (j : ℕ) (f h : Fr V) (a : Member) {x m : Member}
      → Reads V j f x h
      → f.self ≡ c
      → stored V S c f.world j ≡ some m
      → a.metadata ≡ x.metadata
      → a.spec.broken ≡ x.spec.broken
      → NoneEnters c f.world (V.members.update a h.world).1
  unfolding is_creating
  writing c j f h a {x} {m} reads e known meta mark k n there =
      let (same, _, kept) = reading V S j f h reads (rw (sym e) at known) in
      let there_j : stored V S c h.world j ≡ some x =
        kept (member_key c j) ∙ known ∙ ap some (sym same) in
      let keyed = ap key_of meta ∙ S.lookup_keyed there_j in
      let there_k = kept (member_key c k) ∙ there in
      let (n', there', how) = update-stored V S c j k a h.world keyed there_j there_k in
      (
        n',
        there',
        elim how [
          | inl equal ↦ λ q. ap in_repair (sym equal) ∙ q
          | inr (at_j, spec, status) ↦
              let here : stored V S c h.world j ≡ some n =
                subst (λ i. stored V S c h.world i ≡ some n) at_j there_k in
              let equal : x ≡ n = ground arith in
              let mark' : n'.spec.broken ≡ n.spec.broken =
                ap (λ s. s.broken) spec ∙ mark ∙ ap (λ y. y.spec.broken) equal in
              λ q. ground arith
        ],
      )

  Settles-NoneEnters :
      (c : Cluster) (i : ℕ) (f g : Fr V) {m : Member}
      → Settles V i f g
      → f.self ≡ c
      → stored V S c f.world i ≡ some m
      → (g.self ≡ c) × NoneEnters c f.world g.world
  Settles-NoneEnters c i f g (current x reads _ _ _) e known =
      let (_, self, kept) = reading V S i f g reads (rw (sym e) at known) in
      (self ∙ e, NoneEnters-lookup c f.world g.world kept)
  Settles-NoneEnters c i f g (withdrawn x x' h reads _ _ wrote self _ _) e known = (
    self ∙ e,
    subst (NoneEnters c f.world) (ap (λ u. u.1) wrote)
        (writing c i f h (ask_certificates x) reads e known refl refl),
  )

  AllSettled-NoneEnters :
      {i j : ℕ} (c : Cluster) (f h : Fr V)
      → AllSettled V i j f h
      → f.self ≡ c
      → j ≤ pos_part c.spec.size
      → AllStored V S c f.world
      → (h.self ≡ c) × NoneEnters c f.world h.world
  AllSettled-NoneEnters c f h here e le all = (e, λ k n there. (n, there, λ q. q))
  AllSettled-NoneEnters c f h (next {i = i} {j = j} {g = g} settled later) e le all =
      let (m, known) = all i (omega (arith, AllSettled-le V S later)) in
      let (self, first) = Settles-NoneEnters c i f g settled e known in
      let (self', rest) = AllSettled-NoneEnters {i = suc i} {j = j} c g h later self le (λ k small.
        let (n, there) = all k small in let (n', there', _) = first k n there in (n', there')) in
      (self', NoneEnters-trans c f.world g.world h.world first rest)

  Stops-NoneEnters :
      (c : Cluster) (j : ℕ) (f g : Fr V) {o : Outcome (Ret V)} {m : Member}
      → Stops V j f o g
      → f.self ≡ c
      → stored V S c f.world j ≡ some m
      → NoneEnters c f.world g.world
  Stops-NoneEnters c j f g (unread failure fails _) e known =
      let (_, kept) = ensure_member-keeps V S j f (rw (sym e) at known) in
      NoneEnters-lookup c f.world g.world (λ k. ap (λ u. S.lookup k u.1.world) (sym fails) ∙ kept k)
  Stops-NoneEnters c j f g (waits x reads _ _) e known =
      let (_, _, kept) = reading V S j f g reads (rw (sym e) at known) in
      NoneEnters-lookup c f.world g.world kept
  Stops-NoneEnters c j f g (asks_version x h reads _ _ _ wrote _) e known =
      subst (NoneEnters c f.world) (sym wrote)
        (writing c j f h (ask_version f.self x) reads e known refl refl)
  Stops-NoneEnters c j f g (asks_certificates x x' h reads _ _ wrote _ _ _) e known =
      subst (NoneEnters c f.world) (ap (λ u. u.1) wrote)
        (writing c j f h (ask_certificates x) reads e known refl refl)
  Stops-NoneEnters c j f g (withdrawn_waits x x' h reads _ _ wrote _ _ _) e known =
      subst (NoneEnters c f.world) (ap (λ u. u.1) wrote)
        (writing c j f h (ask_certificates x) reads e known refl refl)
  Stops-NoneEnters c j f g (refused x h failure reads _ wrote _ _) e known =
      subst (NoneEnters c f.world) (ap (λ u. u.1) wrote)
        (writing c j f h (ask_certificates x) reads e known refl refl)

  -- A pass of `UpdateMembers` puts no member into repair.
  pub update_members-NoneEnters :
      IsLawful V
      → (c : Cluster) (f : Fr V) → f.self ≡ c
      → AllStored V S c f.world
      → NoneEnters c f.world (update_members V f).1.world
  update_members-NoneEnters L c f e all = elim (update_members-Rolls V L f) [
    | completes j h settled end _ same ↦
        let (_, kept) =
          AllSettled-NoneEnters c f h settled e
            (subst (λ d. j ≤ pos_part d.spec.size) e (omega arith)) all in
        subst (λ g. NoneEnters c f.world g.world) (sym same) kept
    | stops j h settled le stop ↦
        let small : j < pos_part c.spec.size =
          subst (λ d. j < pos_part d.spec.size) e (omega arith) in
        let (self, kept) = AllSettled-NoneEnters c f h settled e (omega (arith, small)) all in
        let (m, known) = all j small in
        let (m', known', _) = kept j m known in
        NoneEnters-trans c f.world h.world (update_members V f).1.world kept
          (Stops-NoneEnters c j h (update_members V f).1 stop self known')
  ]

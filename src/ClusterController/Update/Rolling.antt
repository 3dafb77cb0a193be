-- ===== src/ClusterController/Update/Rolling.antt =====
-- `UpdateMembers` as a rolling update (controllers/cluster_controller.go): a relation that says how
-- one pass may go, and the proof that the code goes no other way.
use etcdops.Base.{
  ℕ, zero, suc, ◌+◌, ◌≤◌, Bool, true, false, ◌||◌, none, some, ◌≡◌, refl, sym, ◌⊎◌, inl, inr,
  Bool-cases, subst, arith, str_eq,
}
use etcdops.Base.Int.{pos_part}
use etcdops.Kube.{ok, err, Outcome, done, panic, Frame, Action}
use etcdops.Kube.Laws.{Answer-cases}
use etcdops.Types.Cluster.{Cluster, ClusterPhase}
use etcdops.Types.Member.{Member, is_creating, is_updating}
use etcdops.Env.{Env, IsLawful, Ret, proceed, failing}
use etcdops.ClusterController.Members.{ensure_member}
use etcdops.ClusterController.Observe.{moved, ensure_member-cases}
use etcdops.ClusterController.Update.{
  requeueing, answer_error, set_certificate_update, update_member, update_from, update_members,
}

-- A member that is being created or updated
abbrev pub is_busy : Member → Bool
is_busy m = is_creating m || is_updating m.status.phase

abbrev pub ask_version : Cluster → Member → Member
ask_version c m = record m { spec = record (m.spec) { version = c.spec.version } }

abbrev pub ask_certificates : Member → Member
ask_certificates m = record m {
  spec = record (m.spec) { certificate_update = m.status.certificate_expires };
}

abbrev pub with_phase : Cluster → ClusterPhase → Cluster
with_phase c p = record c { status = record (c.status) { phase = p } }

-- The cluster when all members are settled
abbrev pub rolled_out : Cluster → Cluster
rolled_out c = record c {
  status = record (c.status) { phase = ClusterPhase.running; certificate_expires = false };
}

-- The member is not busy and was asked for the cluster's version.
abbrev pub IsAsked : Cluster → Member → Type 0
IsAsked c m = (is_busy m ≡ false) × (str_eq c.spec.version m.spec.version ≡ true)

-- New certificates are due, for the cluster or for this member.
abbrev pub certificates_due : Cluster → Member → Bool
certificates_due c m = c.status.certificate_expires || m.spec.certificate_update

module _ (V : Env) where
  abbrev pub Fr : Type 0
  Fr = Frame V.World Cluster

  -- The pass reads member `i`.
  abbrev pub Reads : ℕ → Fr → Member → Fr → Type 0
  Reads i f m g = ensure_member V i f ≡ (done (some m, none), g)

  -- How a pass leaves member `i` behind: it runs the cluster's version, and no certificates are
  -- due, or the request for them was withdrawn.
  pub data Settles (i : ℕ) (f g : Fr) : Type 0 where
    current :
        (m : Member)
        → Reads i f m g
        → IsAsked f.self m
        → certificates_due f.self m ≡ false
        → str_eq f.self.spec.version m.status.version ≡ true
        → Settles i f g
    withdrawn :
        (m m' : Member) (h : Fr)
        → Reads i f m h
        → IsAsked f.self m
        → certificates_due f.self m ≡ true
        → V.members.update (ask_certificates m) h.world ≡ (ok m', g.world)
        → g.self ≡ f.self
        → m'.spec.certificate_update ≡ false
        → str_eq f.self.spec.version m'.status.version ≡ true
        → Settles i f g

  -- Members `i` to `j`, without `j`, are settled.
  pub data AllSettled : ℕ → ℕ → Fr → Fr → Type 0 where
    here : {i : ℕ} {f : Fr} → AllSettled i i f f
    next : {i j : ℕ} {f g h : Fr} → Settles i f g → AllSettled (suc i) j g h → AllSettled i j f h

  -- How a pass can stop at member `j`
  pub data Stops (j : ℕ) (f : Fr) (o : Outcome (Ret V)) (g : Fr) : Type 0 where
    unread :
        (e : V.Error) → ensure_member V j f ≡ (done (none, some e), g) → o ≡ panic → Stops j f o g
    waits :
        (m : Member)
        → Reads j f m g
        → (is_busy m ≡ true)
          ⊎ (IsAsked f.self m × (str_eq f.self.spec.version m.status.version ≡ false))
        → o ≡ done (requeueing V none)
        → Stops j f o g
    asks_version :
        (m : Member) (h : Fr)
        → Reads j f m h
        → is_busy m ≡ false
        → str_eq f.self.spec.version m.spec.version ≡ false
        → o
          ≡ done (requeueing V (answer_error V (V.members.update (ask_version f.self m) h.world).0))
        → (g.world ≡ (V.members.update (ask_version f.self m) h.world).1)
        → (g.self ≡ with_phase f.self ClusterPhase.updating)
        → Stops j f o g
    asks_certificates :
        (m m' : Member) (h : Fr)
        → Reads j f m h
        → IsAsked f.self m
        → certificates_due f.self m ≡ true
        → V.members.update (ask_certificates m) h.world ≡ (ok m', g.world)
        → m'.spec.certificate_update ≡ true
        → o ≡ done (requeueing V none)
        → g.self ≡ with_phase f.self ClusterPhase.updating
        → Stops j f o g
    withdrawn_waits :
        (m m' : Member) (h : Fr)
        → Reads j f m h
        → IsAsked f.self m
        → certificates_due f.self m ≡ true
        → V.members.update (ask_certificates m) h.world ≡ (ok m', g.world)
        → str_eq f.self.spec.version m'.status.version ≡ false
        → o ≡ done (requeueing V none)
        → g.self ≡ f.self
        → Stops j f o g
    refused :
        (m : Member) (h : Fr) (e : V.Error)
        → Reads j f m h
        → certificates_due f.self m ≡ true
        → V.members.update (ask_certificates m) h.world ≡ (err e, g.world)
        → o ≡ done (failing V (some e))
        → g.self ≡ f.self
        → Stops j f o g

  -- A pass over `n` members from index `i` settles some of them and stops at the next one, or
  -- settles all of them.
  pub data Rolls (n i : ℕ) (f : Fr) (o : Outcome (Ret V)) (g : Fr) : Type 0 where
    stops : (j : ℕ) (h : Fr) → AllSettled i j f h → j + 1 ≤ i + n → Stops j h o g → Rolls n i f o g
    completes :
        (j : ℕ) (h : Fr)
        → AllSettled i j f h
        → j ≡ i + n
        → o ≡ done (proceed V)
        → g ≡ record h { self = rolled_out h.self }
        → Rolls n i f o g

  -- What a round has done: it stopped the pass, or settled the member and went on in the frame `g`.
  abbrev Round : ℕ → Fr → Action V.World Cluster (Ret V) → Outcome (Ret V) × Fr → Type 0
  Round i f rest u = Stops i f u.0 u.1 ⊎ ((g : Fr) × Settles i f g × (u ≡ rest g))

  renewing :
      (i : ℕ) (f : Fr) (m : Member) (w : V.World) (rest : Action V.World Cluster (Ret V))
      → Reads i f m (moved V f w)
      → IsAsked f.self m
      → certificates_due f.self m ≡ true
      → Round i f rest (set_certificate_update V f.self m rest (moved V f w))
  unfolding set_certificate_update
  renewing i f m w rest reads asked due =
      let reply = V.members.update (ask_certificates m) w in
      let u = set_certificate_update V f.self m rest (moved V f w) in
      elim (Answer-cases (reply.0)) [
        | inr (e, p) ↦
            inl (refused m (moved V f w) e reads due (ground arith) (ground arith) (ground arith))
        | inl (m', p) ↦ elim (Bool-cases (m'.spec.certificate_update)) [
          | inl wanted ↦ inl (
              asks_certificates m m' (moved V f w) reads asked due (ground arith) wanted
                (ground arith) (ground arith))
          | inr unwanted ↦ elim (Bool-cases (str_eq f.self.spec.version m'.status.version)) [
            | inr behind ↦ inl (
                withdrawn_waits m m' (moved V f w) reads asked due (ground arith) behind
                  (ground arith) (ground arith))
            | inl runs ↦ inr (
              moved V f reply.1,
              withdrawn m m' (moved V f w) reads asked due (ground arith) refl unwanted runs,
              ground arith,
            )
          ]
        ]
      ]

  round :
      (i : ℕ) (f : Fr) (m : Member) (w : V.World) (rest : Action V.World Cluster (Ret V))
      → Reads i f m (moved V f w)
      → Round i f rest (update_member V f.self m rest (moved V f w))
  unfolding update_member
  round i f m w rest reads = elim (Bool-cases (is_busy m)) [
    | inl busy ↦ inl (waits m (ground arith) (inl busy) (ground arith))
    | inr free ↦ elim (Bool-cases (str_eq f.self.spec.version m.spec.version)) [
      | inr old ↦
          inl (
            asks_version m (moved V f w) reads free old (ground arith) (ground arith)
              (ground arith))
      | inl asked ↦ elim (Bool-cases (certificates_due f.self m)) [
        | inl due ↦
            let renews : update_member V f.self m rest (moved V f w)
                ≡ set_certificate_update V f.self m rest (moved V f w) =
              ground arith in
            subst (Round i f rest) (sym renews) (renewing i f m w rest reads (free, asked) due)
        | inr none_due ↦ elim (Bool-cases (str_eq f.self.spec.version m.status.version)) [
          | inr behind ↦ inl (waits m (ground arith) (inr ((free, asked), behind)) (ground arith))
          | inl runs ↦ inr (moved V f w, current m reads (free, asked) none_due runs, ground arith)
        ]
      ]
    ]
  ]

  extend :
      {n i : ℕ} {f g h : Fr} {o : Outcome (Ret V)}
      → Settles i f g
      → Rolls n (suc i) g o h
      → Rolls (suc n) i f o h
  extend settled (stops j h all le stop) = stops j h (next settled all) (omega arith) stop
  extend settled (completes j h all end ended same) =
      completes j h (next settled all) (omega arith) ended same

  update_from-Rolls :
      IsLawful V
      → (n i : ℕ) (f : Fr) → Rolls n i f (update_from V n i none f).0 (update_from V n i none f).1
  unfolding update_from
  update_from-Rolls L zero i f = completes i f here (omega arith) refl refl
  update_from-Rolls L (suc n) i f = elim (ensure_member-cases V i f) [
    | inr (e, w, p) ↦ stops i f here (omega arith) (unread e (ground arith) (ground arith))
    | inl (m, w, p) ↦
        let rest = update_from V n (suc i) none in
        let begins : update_from V (suc n) i none f ≡ update_member V f.self m rest (moved V f w) =
          ground (arith, L.append_nil) in
        elim (round i f m w rest p) [
          | inl stop ↦ stops i f here (omega arith) (rw begins stop)
          | inr (g, settled, goes) ↦
              rw (begins, goes) (extend settled (update_from-Rolls L n (suc i) g))
        ]
  ]

  -- Whatever the world answers, one pass of `UpdateMembers` settles the members in order, and stops
  -- at the first that it cannot settle. Only there it may ask for the new version or for new
  -- certificates, of that one member, and it then shows the phase Updating. It is Running with no
  -- certificates due, and returns with nothing left to do, when all members are settled.
  pub update_members-Rolls :
      IsLawful V
      → (f : Fr)
      → Rolls (pos_part f.self.spec.size) 0 f (update_members V f).0 (update_members V f).1
  unfolding update_members
  update_members-Rolls L f = update_from-Rolls L (pos_part f.self.spec.size) 0 f

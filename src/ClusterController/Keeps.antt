-- ===== src/ClusterController/Keeps.antt =====
-- The object that a handler of a cluster holds: its metadata and its spec are the user's
-- (controllers/cluster_controller.go).
use etcdops.Base.{
  ℕ, zero, suc, String, none, some, ◌≡◌, refl, ◌⊎◌, inl, inr, ◌∙◌, arith, Bool-cases,
}
use etcdops.Base.Int.{pos_part}
use etcdops.Kube.{Outcome, Frame, Action}
use etcdops.Kube.Laws.{Outcome-cases}
use etcdops.Types.Cluster.{Cluster}
use etcdops.Env.{Env, IsLawful, Ret, or_return, returns_early}
use etcdops.ClusterController.{
  ensure_backup_schedule, ensure_service, ensure_ca, repair_if_minor, update_if_due, set_version,
  reconcile_body,
}
use etcdops.ClusterController.Members.{ensure_members, tally_members, no_tally, Tally, tally_member}
use etcdops.ClusterController.Observe.{ensure_member-cases, moved}
use etcdops.ClusterController.Update.{update_members}
use etcdops.ClusterController.Update.Rolling.{
  Rolls, stops, completes, AllSettled, here, next, Settles, current, withdrawn, Stops, unread,
  waits, asks_version, asks_certificates, withdrawn_waits, refused, update_members-Rolls,
}
use etcdops.ClusterController.Repair.Safety.{first_candidate, clock_read}
use etcdops.ClusterController.Repair.{
  find_failed, repair_candidate, repair_members, consider, Candidate,
}

-- The same metadata and spec
abbrev pub SameSpec : Cluster → Cluster → Type 0
SameSpec c d = (d.metadata ≡ c.metadata) × (d.spec ≡ c.spec)

SameSpec-trans : (a b c : Cluster) → SameSpec a b → SameSpec b c → SameSpec a c
SameSpec-trans a b c (p, q) (r, s) = (r ∙ p, s ∙ q)

module _ (V : Env) where
  abbrev pub Keeps : {A : Type 0} → Action V.World Cluster A → Type 0
  Keeps a = (f : Frame V.World Cluster) → SameSpec f.self (a f).1.self

  -- A step that returns early ends the pass.
  pub or_return-cases :
      (a b : Action V.World Cluster (Ret V)) (f : Frame V.World Cluster)
      → ((or_return V a b f).1 ≡ (a f).1) ⊎ (or_return V a b f ≡ b (a f).1)
  or_return-cases a b f = elim (Outcome-cases (a f).0) [
    | inr p ↦ inl (ground arith)
    | inl (r, p) ↦ elim (Bool-cases (returns_early V r)) [
      | inl h ↦ inl (ground arith)
      | inr h ↦ inr (ground arith)
    ]
  ]

  or_return-Keeps :
      (a b : Action V.World Cluster (Ret V)) → Keeps a → Keeps b → Keeps (or_return V a b)
  or_return-Keeps a b ha hb f = ground (arith, ha f, hb (a f).1)

  pub ensure_backup_schedule-Keeps : Keeps (ensure_backup_schedule V)
  unfolding ensure_backup_schedule
  ensure_backup_schedule-Keeps f = ground arith

  pub ensure_service-Keeps : Keeps (ensure_service V)
  unfolding ensure_service
  ensure_service-Keeps f = ground arith

  pub ensure_ca-Keeps : (cluster_issuer : String) → Keeps (ensure_ca V cluster_issuer)
  unfolding ensure_ca
  ensure_ca-Keeps cluster_issuer f = ground arith

  tally_members-self :
      (n i : ℕ) (t : Tally V) (f : Frame V.World Cluster)
      → (tally_members V n i t f).1.self ≡ f.self
  unfolding tally_members
  tally_members-self zero i t f = refl
  tally_members-self (suc n) i t f = elim (ensure_member-cases V i f) [
    | inr (e, w, p) ↦ ground arith
    | inl (m, w, p) ↦
        ground (arith, tally_members-self n (suc i) (tally_member V none m t) (moved V f w))
  ]

  pub ensure_members-Keeps : Keeps (ensure_members V)
  unfolding ensure_members
  ensure_members-Keeps f =
      ground (arith, tally_members-self (pos_part f.self.spec.size) 0 (no_tally V) f)

  find_failed-self :
      (n i : ℕ) (k : Candidate) (f : Frame V.World Cluster)
      → (find_failed V n i k f).1.self ≡ f.self
  unfolding find_failed
  find_failed-self zero i k f = refl
  find_failed-self (suc n) i k f = elim (ensure_member-cases V i f) [
    | inr (e, w, p) ↦ ground arith
    | inl (m, w, p) ↦ ground (arith, find_failed-self n (suc i) (consider m k) (moved V f w))
  ]

  repair_candidate-self :
      (k : Candidate) (f : Frame V.World Cluster) → (repair_candidate V k f).1.self ≡ f.self
  unfolding repair_candidate
  repair_candidate-self k f = ground arith

  repair_members-Keeps : Keeps (repair_members V)
  unfolding repair_members
  repair_members-Keeps f =
      let n = pos_part f.self.spec.size in
      let run = find_failed V n 0 (first_candidate V f) (clock_read V f) in
      let same = find_failed-self n 0 (first_candidate V f) (clock_read V f) in
      elim (Outcome-cases (run.0)) [
        | inr crash ↦ ground arith
        | inl (none, stop) ↦ ground arith
        | inl (some k, end) ↦ ground (arith, repair_candidate-self k run.1)
      ]

  Settles-self : {i : ℕ} {f g : Frame V.World Cluster} → Settles V i f g → g.self ≡ f.self
  Settles-self {i} {f} (current m reads _ _ _) = elim (ensure_member-cases V i f) [
    | inl (x, w, p) ↦ ground arith
    | inr (e, w, p) ↦ ground arith
  ]
  Settles-self (withdrawn _ _ _ _ _ _ _ same _ _) = same

  AllSettled-self : {i j : ℕ} {f g : Frame V.World Cluster} → AllSettled V i j f g → g.self ≡ f.self
  AllSettled-self here = refl
  AllSettled-self (next s all) = AllSettled-self all ∙ Settles-self s

  Stops-Keeps :
      {j : ℕ} {f g : Frame V.World Cluster} {o : Outcome (Ret V)}
      → Stops V j f o g
      → SameSpec f.self g.self
  Stops-Keeps {j} {f} (unread e p _) = elim (ensure_member-cases V j f) [
    | inl (x, w, q) ↦ ground arith
    | inr (e', w, q) ↦ ground arith
  ]
  Stops-Keeps {j} {f} (waits m p _ _) = elim (ensure_member-cases V j f) [
    | inl (x, w, q) ↦ ground arith
    | inr (e', w, q) ↦ ground arith
  ]
  Stops-Keeps (asks_version _ _ _ _ _ _ _ same) = ground arith
  Stops-Keeps (asks_certificates _ _ _ _ _ _ _ _ _ same) = ground arith
  Stops-Keeps (withdrawn_waits _ _ _ _ _ _ _ _ _ same) = ground arith
  Stops-Keeps (refused _ _ _ _ _ _ _ same) = ground arith

  Rolls-Keeps :
      {n i : ℕ} {f g : Frame V.World Cluster} {o : Outcome (Ret V)}
      → Rolls V n i f o g
      → SameSpec f.self g.self
  Rolls-Keeps (stops j h all _ stop) = rw (← AllSettled-self all) (Stops-Keeps stop)
  Rolls-Keeps (completes j h all _ _ same) = ground (arith, AllSettled-self all)

  update_members-Keeps : IsLawful V → Keeps (update_members V)
  update_members-Keeps L f = Rolls-Keeps (update_members-Rolls V L f)

  pub repair_if_minor-Keeps : Keeps (repair_if_minor V)
  unfolding repair_if_minor
  repair_if_minor-Keeps f = ground (arith, repair_members-Keeps f)

  pub update_if_due-Keeps : IsLawful V → Keeps (update_if_due V)
  unfolding update_if_due
  update_if_due-Keeps L f = ground (arith, update_members-Keeps L f)

  pub set_version-Keeps : Keeps (set_version V)
  unfolding set_version
  set_version-Keeps f = (refl, refl)

  pub reconcile_body-Keeps :
      IsLawful V → (cluster_issuer : String) → Keeps (reconcile_body V cluster_issuer)
  unfolding reconcile_body
  reconcile_body-Keeps L cluster_issuer = or_return-Keeps _ _ ensure_backup_schedule-Keeps (
      or_return-Keeps _ _ ensure_service-Keeps (
        or_return-Keeps _ _ (ensure_ca-Keeps cluster_issuer) (
          or_return-Keeps _ _ ensure_members-Keeps (
            or_return-Keeps _ _ repair_if_minor-Keeps
              (or_return-Keeps _ _ (update_if_due-Keeps L) set_version-Keeps)))))

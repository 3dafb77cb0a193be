-- ===== src/ClusterController/Panic.antt =====
-- What an error of `EnsureMember` does to `EnsureMembers` (controllers/cluster_controller.go).
use etcdops.Base.{ℕ, zero, suc, ◌+◌, ◌<◌, List, none, some, ◌≡◌, inl, inr, arith}
use etcdops.Base.Int.{pos_part}
use etcdops.Kube.{done, panic, Frame}
use etcdops.Kube.Laws.{Outcome-cases}
use etcdops.Types.Cluster.{Cluster}
use etcdops.Types.Member.{Member}
use etcdops.Env.{Env, IsLawful}
use etcdops.ClusterController.Members.{ensure_member, ensure_members}
use etcdops.ClusterController.Observe.{observe, moved, ensure_member-cases}
use etcdops.ClusterController.Phase.{ensure_members_lem}

module _ (V : Env) where
  observe-panic :
      (k n i j : ℕ) (f g h : Frame V.World Cluster) {ms : List Member} {e : V.Error}
      → k < n
      → j ≡ k + i
      → observe V k i f ≡ (done ms, g)
      → ensure_member V j g ≡ (done (none, some e), h)
      → observe V n i f ≡ (panic, h)
  unfolding observe
  observe-panic k zero i j f g h less at read fails = absurd (omega arith)
  observe-panic zero (suc n) i j f g h less at read fails =
      let same : j ≡ i = omega arith in
      let fails' : ensure_member V i g ≡ _ = rw same at fails in ground arith
  observe-panic (suc k) (suc n) i j f g h less at read fails = elim (ensure_member-cases V i f) [
    | inr (e, w, p) ↦ absurd (ground arith)
    | inl (m, w, p) ↦ elim (Outcome-cases (observe V k (suc i) (moved V f w)).0) [
      | inr q ↦ absurd (ground arith)
      | inl (rest, q) ↦
          let later =
            observe-panic k n (suc i) j (moved V f w) g h {ms = rest} (omega arith) (omega arith)
              (ground arith) fails in
          ground arith
    ]
  ]

  -- If `EnsureMember` fails for one of the members, behind others that were read, `EnsureMembers`
  -- panics at that member, in the world behind the failure, and the error is lost.
  pub ensure_members_panics :
      IsLawful V
      → (k : ℕ) (f g h : Frame V.World Cluster) {ms : List Member} {e : V.Error}
      → k < pos_part f.self.spec.size
      → observe V k 0 f ≡ (done ms, g)
      → ensure_member V k g ≡ (done (none, some e), h)
      → ensure_members V f ≡ (panic, h)
  ensure_members_panics L k f g h less read fails =
      let crash =
        observe-panic k (pos_part f.self.spec.size) 0 k f g h less (omega arith) read fails in
      rw (ensure_members_lem V L f) (ground arith)

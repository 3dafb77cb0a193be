-- ===== src/MemberController/Pods/Phase.antt =====
-- How the pod decides the phase of a member (controllers/member_controller.go, `EnsurePod`).
use etcdops.Base.{
  Bool, true, ◌&&◌, List, [], ◌∷◌, length, ◌==◌, All, ◌≡◌, ◌≢◌, refl, sym, subst, ◌↔◌, ◌⊎◌, inl,
  inr, arith, Bool-cases, some, none,
}
use etcdops.Kube.{
  Answer, ok, err, OperationResult, created, updated, unchanged, Outcome, done, Frame, Pod,
  ObjectMeta,
}
use etcdops.Kube.Laws.{Answer-cases}
use etcdops.Types.Member.{Member, MemberPhase, is_running, set_failed}
use etcdops.Types.Member.Pod.{get_pod}
use etcdops.Env.{Env, OwnerKind, Ret, proceed, failing}
use etcdops.Controller.{requeue, skip_update}
use etcdops.MemberController.Pods.{
  all_ready, is_ready, fail_member, fail_if_running, after_creation, observe_pod, ensure_pod,
}

-- Each container has a status, and each status says that it is ready.
abbrev pub Ready : Pod → Type 0
Ready pod =
    (length pod.container_statuses ≡ length pod.containers)
    × All (λ r. r ≡ true) pod.container_statuses

all_ready_iff :
    (statuses : List Bool) (ready : Bool)
    → (all_ready statuses ready ≡ true) ↔ ((ready ≡ true) × All (λ r. r ≡ true) statuses)
unfolding all_ready
all_ready_iff [] ready = (λ h. (h, tt), λ (h, _). h)
all_ready_iff (r ∷ statuses) ready =
    let rest = all_ready_iff statuses (ready && r) in
    (
      λ h. let (a, b) = rest.0 h in (ground arith, (ground arith, b)),
      λ (h, (e, all)). rest.1 (ground arith, all),
    )

is_ready-Ready : (pod : Pod) → (is_ready pod ≡ true) ↔ Ready pod
unfolding is_ready
is_ready-Ready pod =
    let statuses =
      all_ready_iff pod.container_statuses
        (length pod.container_statuses == length pod.containers) in
    (
      λ h. let (a, b) = statuses.0 h in (ground arith, b),
      λ (e, all). statuses.1 (ground arith, all),
    )

module _ (V : Env) where
  abbrev pub behind : Frame V.World Member → V.World → Frame V.World Member
  behind f w = record f { world = w }

  -- What `CreateOrUpdate` answers to the pod of the member
  abbrev pub Answers :
      Frame V.World Member → Answer V.Error (Pod × OperationResult) → V.World → Type 0
  Answers f a w =
      (m : ObjectMeta) × (V.set_controller_reference OwnerKind.member f.self.metadata
          (get_pod f.self).metadata
        ≡ ok m)
      × (V.pods.create_or_update (record (get_pod f.self) { metadata = m }) skip_update f.world
          ≡ (a, w))

  -- A member that ran has failed, from the instant at which that is seen.
  abbrev pub failed_at : Frame V.World Member → V.World → Frame V.World Member
  failed_at f w = record {
    world = (V.now w).1;
    self = record (f.self) {
      status = record (f.self.status) { phase = MemberPhase.failed; failed_time = (V.now w).0 };
    };
  }

  -- A member runs the version of its spec.
  abbrev pub runs_at : Frame V.World Member → V.World → Frame V.World Member
  runs_at f w = record {
    world = w;
    self = record (f.self) {
      status = record (f.self.status) {
        phase = MemberPhase.running;
        version = f.self.spec.version;
      };
    };
  }

  -- The ways of one look at the pod
  pub data Observes (f : Frame V.World Member)
      : Outcome (Ret V) → Frame V.World Member → Type 0 where
    refused :
        {e : V.Error} {w : V.World}
        → ((V.set_controller_reference OwnerKind.member f.self.metadata (get_pod f.self).metadata
              ≡ err e)
            × (w ≡ f.world))
          ⊎ Answers f (err e) w
        → Observes f (done (failing V (some e))) (behind f w)
    recreated_lost :
        {pod : Pod} {w : V.World}
        → Answers f (ok (pod, created)) w
        → f.self.status.phase ≡ MemberPhase.running
        → Observes f (done (record { result = requeue; error = none })) (failed_at f w)
    recreated :
        {pod : Pod} {w : V.World}
        → Answers f (ok (pod, created)) w
        → f.self.status.phase ≢ MemberPhase.running
        → Observes f (done (record { result = requeue; error = none })) (behind f w)
    runs :
        {pod : Pod} {op : OperationResult} {w : V.World}
        → Answers f (ok (pod, op)) w
        → op ≢ created
        → Ready pod
        → Observes f (done (proceed V)) (runs_at f w)
    lost :
        {pod : Pod} {op : OperationResult} {w : V.World}
        → Answers f (ok (pod, op)) w
        → op ≢ created
        → f.self.status.phase ≡ MemberPhase.running
        → ¬ Ready pod
        → Observes f (done (proceed V)) (failed_at f w)
    pending :
        {pod : Pod} {op : OperationResult} {w : V.World}
        → Answers f (ok (pod, op)) w
        → op ≢ created
        → f.self.status.phase ≢ MemberPhase.running
        → ¬ Ready pod
        → Observes f (done (proceed V)) (behind f w)

  OperationResult-cases : (op : OperationResult) → (op ≡ created) ⊎ (op ≢ created)
  OperationResult-cases created = inl refl
  OperationResult-cases unchanged = inr λ e. ground arith
  OperationResult-cases updated = inr λ e. ground arith

  is_running_iff : (p : MemberPhase) → (is_running p ≡ true) ↔ (p ≡ MemberPhase.running)
  is_running_iff p = (λ h. ground arith, λ h. ground arith)

  -- The member and its pod, as an outcome and a frame
  abbrev Sees : Frame V.World Member → Outcome (Ret V) × Frame V.World Member → Type 0
  Sees f u = Observes f u.0 u.1

  recreated-Observes :
      (f : Frame V.World Member) {pod : Pod} {w : V.World}
      → Answers f (ok (pod, created)) w
      → Sees f (after_creation V (behind f w))
  unfolding after_creation fail_if_running fail_member set_failed
  recreated-Observes f {w = w} a =
      let phase = is_running_iff f.self.status.phase in
      elim (Bool-cases (is_running f.self.status.phase)) [
        | inl h ↦
            let ran = phase.0 h in
            let goes : after_creation V (behind f w)
                ≡ (done (record { result = requeue; error = none }), failed_at f w) =
              ground arith in
            subst (Sees f) (sym goes) (recreated_lost a ran)
        | inr h ↦
            let goes : after_creation V (behind f w)
                ≡ (done (record { result = requeue; error = none }), behind f w) =
              ground arith in
            subst (Sees f) (sym goes) (recreated a (λ x. ground (arith, phase.1 x)))
      ]

  observe_pod-Observes :
      (f : Frame V.World Member) {pod : Pod} {op : OperationResult} {w : V.World}
      → Answers f (ok (pod, op)) w
      → op ≢ created
      → Sees f (observe_pod V pod (behind f w))
  unfolding observe_pod fail_member set_failed
  observe_pod-Observes f {pod = pod} {w = w} a old =
      let phase = is_running_iff f.self.status.phase in
      let ready = is_ready-Ready pod in
      elim (Bool-cases (is_ready pod)) [
        | inl r ↦
            let goes : observe_pod V pod (behind f w) ≡ (done (proceed V), runs_at f w) =
              ground arith in
            subst (Sees f) (sym goes) (runs a old (ready.0 r))
        | inr r ↦ elim (Bool-cases (is_running f.self.status.phase)) [
          | inl h ↦
              let ran = phase.0 h in
              let goes : observe_pod V pod (behind f w) ≡ (done (proceed V), failed_at f w) =
                ground arith in
              subst (Sees f) (sym goes) (lost a old ran (λ x. ground (arith, ready.1 x)))
          | inr h ↦
              let goes : observe_pod V pod (behind f w) ≡ (done (proceed V), behind f w) =
                ground arith in
              subst (Sees f) (sym goes)
                (pending a old (λ x. ground (arith, phase.1 x)) (λ x. ground (arith, ready.1 x)))
        ]
      ]

  -- `EnsurePod` makes sure of the member's pod and then reads the phase off it. If the pod is missing
  -- it is created, and a member that was running has failed. If all containers of the pod are ready
  -- the member runs the version of its spec. If not, a member that was running has failed, and any
  -- other is left as it is. A member that fails here has the time at which that was seen, and an
  -- error leaves the member as it is.
  pub ensure_pod-Observes :
      (f : Frame V.World Member) → Observes f (ensure_pod V f).0 (ensure_pod V f).1
  unfolding ensure_pod
  ensure_pod-Observes f =
      let pod = get_pod f.self in
      elim (Answer-cases
        (V.set_controller_reference OwnerKind.member f.self.metadata pod.metadata)) [
          | inr (e, p) ↦
              let goes : ensure_pod V f ≡ (done (failing V (some e)), f) = ground arith in
              subst (Sees f) (sym goes) (refused (inl (p, refl)))
          | inl (m, p) ↦
              let reply =
                V.pods.create_or_update (record pod { metadata = m }) skip_update f.world in
              elim (Answer-cases reply.0) [
                | inr (e, q) ↦
                    let goes : ensure_pod V f ≡ (done (failing V (some e)), behind f reply.1) =
                      ground arith in
                    subst (Sees f) (sym goes) (refused (inr (m, p, ground arith)))
                | inl ((found, op), q) ↦ elim (OperationResult-cases op) [
                  | inl new ↦
                      let goes : ensure_pod V f ≡ after_creation V (behind f reply.1) =
                        ground arith in
                      subst (Sees f) (sym goes)
                        (recreated-Observes f {pod = found} {w = reply.1} (m, p, ground arith))
                  | inr old ↦
                      let goes : ensure_pod V f ≡ observe_pod V found (behind f reply.1) =
                        ground arith in
                      subst (Sees f) (sym goes) (
                        observe_pod-Observes f {pod = found} {op = op} {w = reply.1}
                          (m, p, ground arith) old)
                ]
              ]
        ]

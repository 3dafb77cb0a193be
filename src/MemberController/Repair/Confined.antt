-- ===== src/MemberController/Repair/Confined.antt =====
-- A pass over a member that is marked as broken (controllers/member_controller.go, `Reconcile` with
-- `Repair`) writes no stored member but its own.
use etcdops.Base.{false, some, ◌≡◌, ◌≢◌, refl, sym, ◌∙◌, ap, subst, inl, inr, arith, Bool-cases}
use etcdops.Kube.{done, Action, NamespacedName, zero_time}
use etcdops.Kube.Laws.{Answer-cases}
use etcdops.Types.Member.{Member, MemberPhase}
use etcdops.Env.{Env, IsLawful, Ret, or_return}
use etcdops.Env.Store.{MemberStore, MemberCalls, key_of}
use etcdops.MemberController.{reconcile_body, repair_if_broken}
use etcdops.MemberController.Pods.{delete_pod, delete_pvc}
use etcdops.MemberController.Repair.{
  update_member_status, update_member_object, readd_to_cluster, finish_repair, repair,
}
use etcdops.MemberController.Advance.{Fr, or_return-cases}
use etcdops.MemberController.Advance.Pass.{behind_repair-Moves}
use etcdops.MemberController.Repair.Rests.{
  Rests, delete_pod-Rests, delete_pvc-Rests, readd_to_cluster-Rests,
}
use etcdops.MemberController.Quiet.{behind_repair, behind_repair-Quiet}

module _ (V : Env) (S : MemberStore V) (K : MemberCalls V S) where
  abbrev own : Fr V → NamespacedName
  own f = key_of f.self.metadata

  -- The member of a pass is stored.
  abbrev pub IsKnown : Fr V → Type 0
  IsKnown f = (m : Member) × (S.lookup (own f) f.world ≡ some m)

  -- From one frame to the next the member keeps its name and stays stored, and the other members
  -- stay as they are.
  abbrev pub Confined : Fr V → Fr V → Type 0
  Confined f g =
      IsKnown f
      → (own g ≡ own f)
        × ((k : NamespacedName) → k ≢ own f → S.lookup k g.world ≡ S.lookup k f.world)
        × IsKnown g

  pub Confined-trans : (f g h : Fr V) → Confined f g → Confined g h → Confined f h
  Confined-trans f g h first second known =
      let (name, kept, there) = first known in
      let (name', kept', there') = second there in
      (name' ∙ name, λ k apart. kept' k (λ e. apart (e ∙ name)) ∙ kept k apart, there')

  quiet-Confined :
      (f g : Fr V)
      → g.self.metadata ≡ f.self.metadata
      → ((k : NamespacedName) → S.lookup k g.world ≡ S.lookup k f.world)
      → Confined f g
  quiet-Confined f g meta same (m, known) =
      let name = ap key_of meta in
      (name, λ k apart. same k, (m, ap (λ k. S.lookup k g.world) name ∙ same (own f) ∙ known))

  or_return-Confined :
      (a b : Action V.World Member (Ret V)) (f : Fr V)
      → Confined f (a f).1
      → Confined (a f).1 (b (a f).1).1
      → Confined f (or_return V a b f).1
  or_return-Confined a b f first second = elim (or_return-cases V a b f) [
    | inl e ↦ subst (Confined f) (sym e) first
    | inr e ↦
        subst (λ u. Confined f u.1) (sym e) (Confined-trans f (a f).1 (b (a f).1).1 first second)
  ]

  Rests-Confined : (f g : Fr V) → Rests V S K f g → Confined f g
  Rests-Confined f g (self, same) = quiet-Confined f g (ap (λ m. m.metadata) self) same

  -- The member that an update answers with
  answered-Confined :
      (f : Fr V) (x : Member) (w : V.World)
      → (IsKnown f → S.lookup (own f) w ≡ some x)
      → ((k : NamespacedName) → k ≢ own f → S.lookup k w ≡ S.lookup k f.world)
      → Confined f (record { world = w; self = x })
  answered-Confined f x w wrote kept known =
      let there = wrote known in
      let name = S.lookup_keyed there in (name, kept, (x, ap (λ k. S.lookup k w) name ∙ there))

  pub update_member_status-Confined : (f : Fr V) → Confined f (update_member_status V f).1
  unfolding update_member_status
  update_member_status-Confined f =
      let reply = V.members.update_status f.self f.world in
      elim (Answer-cases reply.0) [
        | inr (e, p) ↦
            let goes : (update_member_status V f).1 ≡ record f { world = reply.1 } = ground arith in
            subst (Confined f) (sym goes)
              (quiet-Confined f (record f { world = reply.1 }) refl (K.status_refused p))
        | inl (x, p) ↦
            let goes : (update_member_status V f).1 ≡ record { world = reply.1; self = x } =
              ground arith in
            subst (Confined f) (sym goes) (
              answered-Confined f x reply.1
                (λ (m, known). let (_, _, there) = K.status_writes {a = f.self} known p in there)
                (λ k apart. K.status_keeps_others apart))
      ]

  update_member_object-Confined : (f : Fr V) → Confined f (update_member_object V f).1
  unfolding update_member_object
  update_member_object-Confined f =
      let reply = V.members.update f.self f.world in
      elim (Answer-cases reply.0) [
        | inr (e, p) ↦
            let goes : (update_member_object V f).1 ≡ record f { world = reply.1 } = ground arith in
            subst (Confined f) (sym goes)
              (quiet-Confined f (record f { world = reply.1 }) refl (S.update_refused p))
        | inl (x, p) ↦
            let goes : (update_member_object V f).1 ≡ record { world = reply.1; self = x } =
              ground arith in
            subst (Confined f) (sym goes) (
              answered-Confined f x reply.1
                (λ (m, known). let (_, _, there) = S.update_writes {a = f.self} known p in there)
                (λ k apart. S.update_keeps_others apart))
      ]

  update_member_status-done : (f : Fr V) → (update_member_status V f).0 ≡ done tt
  unfolding update_member_status
  update_member_status-done f = elim (Answer-cases (V.members.update_status f.self f.world).0) [
    | inr (e, p) ↦ ground arith
    | inl (x, p) ↦ ground arith
  ]

  update_member_object-done : (f : Fr V) → (update_member_object V f).0 ≡ done tt
  unfolding update_member_object
  update_member_object-done f = elim (Answer-cases (V.members.update f.self f.world).0) [
    | inr (e, p) ↦ ground arith
    | inl (x, p) ↦ ground arith
  ]

  abbrev recreated : Member → Member
  recreated m = record m {
    status = record (m.status) { phase = MemberPhase.recreating; failed_time = zero_time };
  }

  abbrev unmarked : Member → Member
  unmarked m = record m { spec = record (m.spec) { broken = false } }

  finish_repair-Confined : (f : Fr V) → Confined f (finish_repair V f).1
  unfolding finish_repair
  finish_repair-Confined f =
      let again : Fr V = record f { self = recreated f.self } in
      let g = (update_member_status V again).1 in
      let whole : Fr V = record g { self = unmarked g.self } in
      let h = (update_member_object V whole).1 in
      let status : (update_member_status V again).0 ≡ done tt = update_member_status-done again in
      let object : (update_member_object V whole).0 ≡ done tt = update_member_object-done whole in
      let goes : (finish_repair V f).1 ≡ h = ground (arith, status, object) in
      subst (Confined f) (sym goes) (
        Confined-trans f again h (quiet-Confined f again refl (λ k. refl)) (
          Confined-trans again g h (update_member_status-Confined again) (
            Confined-trans g whole h (quiet-Confined g whole refl (λ k. refl))
              (update_member_object-Confined whole))))

  repair-Confined : (f : Fr V) → Confined f (repair V f).1
  unfolding repair
  repair-Confined f =
      or_return-Confined (delete_pod V)
        (or_return V (delete_pvc V) (or_return V (readd_to_cluster V) (finish_repair V))) f
        (Rests-Confined f (delete_pod V f).1 (delete_pod-Rests V S K f)) (rest (delete_pod V f).1)
    where
      last : (g : Fr V) → Confined g (or_return V (readd_to_cluster V) (finish_repair V) g).1
      last g =
          or_return-Confined (readd_to_cluster V) (finish_repair V) g
            (Rests-Confined g (readd_to_cluster V g).1 (readd_to_cluster-Rests V S K g))
            (finish_repair-Confined (readd_to_cluster V g).1)

      rest :
          (g : Fr V)
          → Confined g
              (or_return V (delete_pvc V) (or_return V (readd_to_cluster V) (finish_repair V)) g).1
      rest g =
          or_return-Confined (delete_pvc V) (or_return V (readd_to_cluster V) (finish_repair V)) g
            (Rests-Confined g (delete_pvc V g).1 (delete_pvc-Rests V S K g))
            (last (delete_pvc V g).1)

  repair_if_broken-Confined : (f : Fr V) → Confined f (repair_if_broken V f).1
  unfolding repair_if_broken
  repair_if_broken-Confined f = elim (Bool-cases f.self.spec.broken) [
    | inl h ↦
        let goes : repair_if_broken V f ≡ repair V f = ground arith in
        subst (λ u. Confined f u.1) (sym goes) (repair-Confined f)
    | inr h ↦
        let goes : (repair_if_broken V f).1 ≡ f = ground arith in
        subst (Confined f) (sym goes) (quiet-Confined f f refl (λ k. refl))
  ]

  -- The body of a pass
  pub reconcile_body-Confined : IsLawful V → (f : Fr V) → Confined f (reconcile_body V f).1
  unfolding reconcile_body
  reconcile_body-Confined L f =
      let g = (repair_if_broken V f).1 in
      or_return-Confined (repair_if_broken V) (behind_repair V S K) f (repair_if_broken-Confined f)
        (quiet-Confined g (behind_repair V S K g).1 (behind_repair-Moves V L g).0
          (behind_repair-Quiet V S K g))

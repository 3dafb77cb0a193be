-- ===== src/MemberController/Advance.antt =====
-- What a pass can make of a member that is not marked as broken (controllers/member_controller.go,
-- `Reconcile`), and how the steps of a pass compose.
pub mod Certificates
pub mod Pass
pub mod Steps
use etcdops.Base.{
  String, Bool, true, false, ◌||◌, List, [], ◌∷◌, ◌≡◌, ◌≢◌, refl, sym, ◌∙◌, ap, subst, ◌⊎◌, inl,
  inr, arith, Bool-cases, some, none, Option-cases,
}
use etcdops.Base.Int.{ltb_ℤ}
use etcdops.Kube.{Answer, ok, err, Outcome, done, panic, Frame, Action, Pod, NamespacedName, pure}
use etcdops.Kube.Laws.{Answer-cases, Outcome-cases}
use etcdops.Types.Member.{Member, MemberPhase, should_update}
use etcdops.Types.Member.Objects.{get_certificate, get_certificate_name}
use etcdops.Types.Member.Pod.{get_pod}
use etcdops.Env.{Env, IsLawful, OwnerKind, Ret, proceed, or_return, returns_early}
use etcdops.Controller.{skip_update}
use etcdops.MemberController.{repair_if_broken, update_if_due, reconcile_body}
use etcdops.MemberController.Certificates.{
  ensure_each, ensure_certificates, check_each, check_certificate_expires, suffixes,
  is_zero_pointer,
}
use etcdops.MemberController.Ensure.{create_pvc, ensure_pvc}
use etcdops.MemberController.Pods.{ensure_pod, delete_pod, after_delete}
use etcdops.MemberController.Pods.Phase.{ensure_pod-Observes, Observes}

-- The member after a look at its certificates
abbrev pub seen : Member → Bool → Member
seen m b = record m { status = record (m.status) { certificate_expires = b } }

-- The phase and the version of a member, before and behind a pass
pub data Advances (m m' : Member) : Type 0 where
  stays :
      m'.status.phase ≡ m.status.phase
      → m'.status.version ≡ m.status.version
      → m'.status.failed_time ≡ m.status.failed_time
      → Advances m m'
  fails :
      m.status.phase ≡ MemberPhase.running
      → should_update (seen m m'.status.certificate_expires) ≡ false
      → m'.status.phase ≡ MemberPhase.failed
      → m'.status.version ≡ m.status.version
      → Advances m m'
  restarts :
      should_update (seen m m'.status.certificate_expires) ≡ true
      → m'.status.phase ≡ MemberPhase.updating
      → m'.status.version ≡ m.status.version
      → m'.status.failed_time ≡ m.status.failed_time
      → Advances m m'
  runs : m'.status.phase ≡ MemberPhase.running → m'.status.version ≡ m.spec.version → Advances m m'

-- The user's part of the member stays.
abbrev pub Moves : Member → Member → Type 0
Moves m m' = (m'.metadata ≡ m.metadata) × (m'.spec ≡ m.spec) × Advances m m'

-- The member while it restarts
abbrev pub restarting : Member → Member
restarting m = record m { status = record (m.status) { phase = MemberPhase.updating } }

module _ (V : Env) where
  abbrev pub Fr : Type 0
  Fr = Frame V.World Member

  -- Nothing but the flag for certificates changes.
  abbrev pub Looks : Fr → Fr → Type 0
  Looks f g = (b : Bool) × (g.self ≡ seen f.self b)

  abbrev pub MovesTo : Fr → Fr → Type 0
  MovesTo f g = Moves f.self g.self

  seen-Moves : (m m' : Member) (b : Bool) → Moves (seen m b) m' → Moves m m'
  seen-Moves m m' b (meta, spec, stays p v t) = (meta, spec, stays p v t)
  seen-Moves m m' b (meta, spec, fails p u q v) = (meta, spec, fails p u q v)
  seen-Moves m m' b (meta, spec, restarts u q v t) = (meta, spec, restarts u q v t)
  seen-Moves m m' b (meta, spec, runs q v) = (meta, spec, runs q v)

  Looks-Moves : (f g h : Fr) → Looks f g → MovesTo g h → MovesTo f h
  Looks-Moves f g h (b, e) moves = seen-Moves f.self h.self b (subst (λ m. Moves m h.self) e moves)

  pub Looks-stays : (f g : Fr) → Looks f g → MovesTo f g
  Looks-stays f g (b, e) = (
    ap (λ m. m.metadata) e,
    ap (λ m. m.spec) e,
    stays (ap (λ m. m.status.phase) e) (ap (λ m. m.status.version) e)
        (ap (λ m. m.status.failed_time) e),
  )

  -- A step that returns early ends the pass.
  pub or_return-cases :
      (a b : Action V.World Member (Ret V)) (f : Fr)
      → ((or_return V a b f).1 ≡ (a f).1) ⊎ (or_return V a b f ≡ b (a f).1)
  or_return-cases a b f = elim (Outcome-cases (a f).0) [
    | inr p ↦ inl (ground arith)
    | inl (r, p) ↦ elim (Bool-cases (returns_early V r)) [
      | inl h ↦ inl (ground arith)
      | inr h ↦ inr (ground arith)
    ]
  ]

  pub or_return-Moves :
      (a b : Action V.World Member (Ret V)) (f : Fr)
      → Looks f (a f).1
      → MovesTo (a f).1 (b (a f).1).1
      → MovesTo f (or_return V a b f).1
  or_return-Moves a b f looks moves = elim (or_return-cases a b f) [
    | inl e ↦ subst (MovesTo f) (sym e) (Looks-stays f (a f).1 looks)
    | inr e ↦ subst (λ u. MovesTo f u.1) (sym e) (Looks-Moves f (a f).1 (b (a f).1).1 looks moves)
  ]

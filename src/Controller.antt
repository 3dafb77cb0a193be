-- ===== src/Controller.antt =====
-- What the controllers share: controllers/result.go and `SkipUpdate`, and the two calls by which a
-- handler makes sure that an object exists.
use etcdops.Base.{true, false, Option, none, some, ◌≡◌, inl, inr, Bool-cases}
use etcdops.Base.Int.{pos}
use etcdops.Kube.{CtrlResult, Answer, ok, err, OperationResult, created}
use etcdops.Env.{Env, IsLawful, Ret, proceed, failing}

unfoldable pub requeue : CtrlResult
requeue = record { requeue = true; requeue_after = pos 0 }

-- `SkipUpdate` leaves an object that exists as it is.
unfoldable pub skip_update : {E : Type 0} → Unit {0} → Option E
skip_update _ = none

module _ (V : Env) where
  -- `if opResult, err := …; err != nil { return …, err } else if opResult == Created { requeue }`
  abbrev pub requeue_if_created : {A : Type 0} → Answer V.Error (A × OperationResult) → Ret V
  requeue_if_created (err e) = failing V (some e)
  requeue_if_created (ok (_, created)) = record { result = requeue; error = none }
  requeue_if_created (ok (_, _)) = proceed V

  -- A requeue is not the empty result, so a handler that gets one returns it.
  pub is_zero-requeue : IsLawful V → V.is_zero requeue ≡ false
  unfolding requeue
  is_zero-requeue L = elim (Bool-cases (V.is_zero requeue)) [
    | inr h ↦ h
    | inl h ↦ cc (L.is_zero_iff requeue h)
  ]

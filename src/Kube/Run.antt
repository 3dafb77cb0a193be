-- ===== src/Kube/Run.antt =====
-- A run of Go code against the world: explicit state passing, with the panics of a nil pointer.
use etcdops.Base.{Bool, false, Option, none, some}
use etcdops.Base.Int.{pos}
use etcdops.Kube.Objects.{Duration}

-- What a call of an API returns: a value, or an error.
pub data Answer (E A : Type 0) : Type 0 where
  ok : A → Answer E A
  err : E → Answer E A

-- controllerutil.OperationResult
pub data OperationResult : Type 0 where
  unchanged created updated : OperationResult

-- ctrl.Result
pub record CtrlResult : Type 0 where
  pub requeue : Bool
  pub requeue_after : Duration

-- `ctrl.Result{}`
abbrev pub no_result : CtrlResult
no_result = record { requeue = false; requeue_after = pos 0 }

-- `(ctrl.Result, error)`, where `none` is the nil error.
pub record Return (E : Type 0) : Type 0 where
  pub result : CtrlResult
  pub error : Option E

-- How a call of Go code ends.
pub data Outcome (A : Type 0) : Type 0 where
  done : A → Outcome A
  panic : Outcome A

-- The world behind the API, and the object that a handler holds by pointer.
pub record Frame (W S : Type 0) : Type 0 where
  pub world : W
  pub self : S

abbrev pub Action : Type 0 → Type 0 → Type 0 → Type 0
Action W S A = Frame W S → Outcome A × Frame W S

module _ {W S : Type 0} where
  abbrev pub pure : {A : Type 0} → A → Action W S A
  pure a f = (done a, f)

  abbrev pub crash : {A : Type 0} → Action W S A
  crash f = (panic, f)

  -- A call that reads and changes the world alone.
  abbrev pub call : {A : Type 0} → (W → A × W) → Action W S A
  call op f = let (a, w) = op f.world in (done a, record f { world = w })

  abbrev pub get_self : Action W S S
  get_self f = (done f.self, f)

  abbrev pub put_self : S → Action W S (Unit {0})
  put_self s f = (done tt, record f { self = s })

  -- A read through a pointer.
  abbrev pub deref : {A : Type 0} → Option A → Action W S A
  deref none = crash
  deref (some a) = pure a

infixl 5 ◌>>=◌ ◌>>◌
abbrev pub ◌>>=◌ : {W S A B : Type 0} → Action W S A → (A → Action W S B) → Action W S B
◌>>=◌ m k f = let (o, g) = m f in elim o [ done a ↦ k a g | panic ↦ (panic, g) ]

abbrev pub ◌>>◌ : {W S B : Type 0} → Action W S (Unit {0}) → Action W S B → Action W S B
m >> k = m >>= λ _. k

-- `defer`: the deferred call runs however the body ends, and does not change how it ends.
abbrev pub with_defer : {W S A : Type 0} → Action W S (Unit {0}) → Action W S A → Action W S A
with_defer cleanup body f = let (o, g) = body f in (o, (cleanup g).1)

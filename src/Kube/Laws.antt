-- ===== src/Kube/Laws.antt =====
-- Case analysis of what a call answers and of how a run ends.
use etcdops.Base.{◌≡◌, refl, ◌⊎◌, inl, inr}
use etcdops.Kube.Run.{Answer, ok, err, Outcome, done, panic}

pub Answer-cases :
    {E A : Type 0} (a : Answer E A) → ((x : A) × (a ≡ ok x)) ⊎ ((e : E) × (a ≡ err e))
Answer-cases (ok x) = inl (x, refl)
Answer-cases (err e) = inr (e, refl)

pub Outcome-cases : {A : Type 0} (o : Outcome A) → ((x : A) × (o ≡ done x)) ⊎ (o ≡ panic)
Outcome-cases (done x) = inl (x, refl)
Outcome-cases panic = inr refl

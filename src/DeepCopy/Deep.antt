-- ===== src/DeepCopy/Deep.antt =====
-- What makes a copy deep (api/v1alpha1/zz_generated.deepcopy.go), and the parts that a deep copy is
-- put together from.
use etcdops.Base.{ℕ, ◌≤◌, ◌<◌, true, some, ◌≡◌, refl, ◌∙◌, inl, inr, arith, Bool-cases, ltb}
use etcdops.DeepCopy.Values.{Types}
use etcdops.DeepCopy.Memory.{Memory, M, Kind, value, pure}
use etcdops.DeepCopy.View.{View, as_is}

module _ {T : Types} where
  -- The later memory has the cells of the earlier one, from an address on.
  pub record Agrees (from : ℕ) (m later : Memory T) : Type 0 where
    pub grows : m.next ≤ later.next
    pub same : (k : ℕ) → from ≤ k → k < m.next → later.cells k ≡ m.cells k

  -- Nothing that is there is written.
  abbrev pub Keeps : Memory T → Memory T → Type 0
  Keeps m later = Agrees 0 m later

  pub Agrees-refl : (n : ℕ) (m : Memory T) → Agrees n m m
  Agrees-refl n m = record { grows = omega arith; same = λ k low high. refl }

  pub Agrees-trans : {n : ℕ} {l m h : Memory T} → Agrees n l m → Agrees n m h → Agrees n l h
  Agrees-trans {n} {l} {m} {h} first second = record {
    grows = omega (arith, first.grows, second.grows);
    same =
        λ k low high. second.same k low (omega (arith, first.grows, high)) ∙ first.same k low high;
  }

  pub Agrees-weaken : {n n' : ℕ} {m h : Memory T} → n ≤ n' → Agrees n m h → Agrees n' m h
  Agrees-weaken {n} {n'} {m} {h} le agrees = record {
    grows = agrees.grows;
    same = λ k low high. agrees.same k (omega arith) high;
  }

  -- A value stays where it is.
  pub value-Agrees :
      {A : Type 0} (K : Kind T A) (n p : ℕ) (m h : Memory T) {a : A}
      → Agrees n m h
      → n ≤ p
      → value K p m ≡ some a
      → value K p h ≡ some a
  unfolding value
  value-Agrees K n p m h agrees low there =
      let bound = agrees.grows in
      elim (Bool-cases (ltb p m.next)) [
        | inr out ↦ absurd (ground arith)
        | inl small ↦
            let same = agrees.same p low (ground arith) in
            let small' : ltb p h.next ≡ true = ground arith in ground arith
      ]

  module _ {A B : Type 0} where
    -- What is copied of `a`, which reads as `b`: the copy reads the same in any memory that keeps what
    -- has been allocated for it, and nothing that was there is written.
    pub record Copied (copy : A → M T A) (view : View T A B) (a : A) (b : B) (m : Memory T)
        : Type 0 where
      pub copy_of : A
      pub after : Memory T
      pub runs : copy a m ≡ some (copy_of, after)
      pub keeps : Keeps m after
      pub reads : (later : Memory T) → Agrees m.next after later → view copy_of later ≡ some b

    -- Each value is copied, and reads the same in a memory that keeps what is there.
    pub record IsDeep (copy : A → M T A) (view : View T A B) : Type 0 where
      pub stable :
          (a : A) (b : B) (m later : Memory T)
          → Keeps m later
          → view a m ≡ some b
          → view a later ≡ some b
      pub copies : (a : A) (b : B) (m : Memory T) → view a m ≡ some b → Copied copy view a b m

  -- A value without references
  pub pure-IsDeep : {A : Type 0} → IsDeep {A = A} {B = A} pure as_is
  pure-IsDeep = record {
    stable = λ a b m later keeps h. h;
    copies = λ a b m h. record {
      copy_of = a;
      after = m;
      runs = refl;
      keeps = Agrees-refl 0 m;
      reads = λ later agrees. h;
    };
  }

  -- A copy that runs like a deep one is deep.
  pub same-IsDeep :
      {A B : Type 0} (copy copy' : A → M T A) (view : View T A B)
      → ((a : A) (m : Memory T) → copy a m ≡ copy' a m)
      → IsDeep copy' view
      → IsDeep copy view
  same-IsDeep copy copy' view same deep = record {
    stable = deep.stable;
    copies = λ a b m h.
        let c = deep.copies a b m h in
        record {
          copy_of = c.copy_of;
          after = c.after;
          runs = same a m ∙ c.runs;
          keeps = c.keeps;
          reads = c.reads;
        };
  }

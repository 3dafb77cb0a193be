-- ===== src/DeepCopy/Write.antt =====
-- Reads and writes through pointers, for api/v1alpha1/zz_generated.deepcopy.go: what a write changes.
use etcdops.Base.{
  ℕ, ◌+◌, ◌≤◌, ◌<◌, true, some, ◌≡◌, ◌⊎◌, inl, inr, arith, Bool-cases, ltb, ◌==◌, if◌then◌else◌,
}
use etcdops.DeepCopy.Values.{Types}
use etcdops.DeepCopy.Memory.{Memory, Kind, value, load, store}
use etcdops.DeepCopy.Deep.{Keeps}

module _ {T : Types} where
  -- Nothing is written but the `n` cells from an address on.
  pub record Writes (n p : ℕ) (m later : Memory T) : Type 0 where
    pub grows : m.next ≤ later.next
    pub same : (k : ℕ) → k < m.next → (k < p) ⊎ (p + n ≤ k) → later.cells k ≡ m.cells k

module _ {T : Types} {A : Type 0} (K : Kind T A) where
  -- The memory behind a write
  abbrev pub overwritten : ℕ → A → Memory T → Memory T
  overwritten p a m = record m { cells = λ (k : ℕ). if k == p then some (K.wrap a) else m.cells k }

  pub load-value : (p : ℕ) (m : Memory T) {a : A} → value K p m ≡ some a → load K p m ≡ some (a, m)
  unfolding load
  load-value p m h = ground arith

  pub store-overwritten :
      (p : ℕ) (a : A) (m : Memory T) → p < m.next → store K p a m ≡ some (tt, overwritten p a m)
  unfolding store
  store-overwritten p a m small = ground arith

  pub value-overwritten :
      (p : ℕ) (a : A) (m : Memory T) → p < m.next → value K p (overwritten p a m) ≡ some a
  unfolding value
  value-overwritten p a m small = ground (arith, K.unwrap_wrap a)

  -- A write to what is new keeps what was there.
  pub overwritten-Keeps :
      (p : ℕ) (a : A) (m n : Memory T) → Keeps m n → m.next ≤ p → Keeps m (overwritten p a n)
  overwritten-Keeps p a m n keeps new = record {
    grows = keeps.grows;
    same = λ k low high. let same = keeps.same k low high in ground arith;
  }

  -- A value stays while its cell does.
  pub value_stays :
      (p : ℕ) (m later : Memory T) {a : A}
      → value K p m ≡ some a
      → m.next ≤ later.next
      → later.cells p ≡ m.cells p
      → value K p later ≡ some a
  unfolding value
  value_stays p m later there grows same = elim (Bool-cases (ltb p m.next)) [
    | inr out ↦ absurd (ground arith)
    | inl small ↦ let small' : ltb p later.next ≡ true = ground arith in ground arith
  ]

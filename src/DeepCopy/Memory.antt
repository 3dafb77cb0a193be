-- ===== src/DeepCopy/Memory.antt =====
-- Go's memory, for zz_generated.deepcopy.go (api/v1alpha1): allocation, reads and writes through
-- pointers, and the copies of slices and pointers that the generated code is made of. No address is
-- used again, since what a pointer refers to is not collected.
use etcdops.Base.{ℕ, zero, suc, ◌+◌, ◌&&◌, Option, none, some, ◌≡◌, ltb, leb, ◌==◌, if◌then◌else◌}
use etcdops.DeepCopy.Values.{Types, Cell, Slice}

-- The values of one type as cells, and its zero value
pub record Kind (T : Types) (A : Type 0) : Type 0 where
  pub zero_value : A
  pub wrap : A → Cell T
  pub unwrap : Cell T → Option A
  pub unwrap_wrap : (a : A) → unwrap (wrap a) ≡ some a

module _ (T : Types) where
  pub record Memory : Type 0 where
    pub next : ℕ
    pub cells : ℕ → Option (Cell T)

  -- `none` is a fault, such as a read through a dangling pointer.
  abbrev pub M : Type 0 → Type 0
  M A = Memory → Option (A × Memory)

module _ {T : Types} where
  abbrev pub pure : {A : Type 0} → A → M T A
  pure a m = some (a, m)

infixl 5 ◌>>=◌ ◌>>◌
abbrev pub ◌>>=◌ : {T : Types} {A B : Type 0} → M T A → (A → M T B) → M T B
◌>>=◌ m f h = elim (m h) [ none ↦ none | some (a, h') ↦ f a h' ]

abbrev pub ◌>>◌ : {T : Types} {B : Type 0} → M T (Unit {0}) → M T B → M T B
m >> k = m >>= λ _. k

module _ {T : Types} {A : Type 0} (K : Kind T A) where
  -- The value at an address
  unfoldable pub value : ℕ → Memory T → Option A
  value p m = if ltb p m.next then elim (m.cells p) [ none ↦ none | some x ↦ K.unwrap x ] else none

  unfoldable pub load : ℕ → M T A
  unfolding value
  load p m = elim (value p m) [ none ↦ none | some a ↦ some (a, m) ]

  unfoldable pub store : ℕ → A → M T (Unit {0})
  store p a m =
      if ltb p m.next
      then some (tt, record m { cells = λ k. if k == p then some (K.wrap a) else m.cells k })
      else none

  -- `make`, of `n` elements that hold the zero value: the address of the first
  unfoldable pub allocate : ℕ → M T ℕ
  allocate n m =
      let fresh = λ (k : ℕ). leb m.next k && ltb k (m.next + n) in
      some (
        m.next,
        record {
          next = m.next + n;
          cells = λ k. if fresh k then some (K.wrap K.zero_value) else m.cells k;
        },
      )

  -- `for i := range *in { (*in)[i].DeepCopyInto(&(*out)[i]) }`, from one element on, with `n` to go
  unfoldable pub copy_items : (A → M T A) → ℕ → ℕ → ℕ → M T (Unit {0})
  unfolding load store
  copy_items copy zero source target = pure tt
  copy_items copy (suc n) source target = do
    x ← load source
    y ← copy x
    store target y
    copy_items copy n (suc source) (suc target)

  -- `if in.Items != nil { … }`: a nil slice stays nil, another one is made anew.
  unfoldable pub copy_slice : (A → M T A) → Option Slice → M T (Option Slice)
  unfolding allocate copy_items
  copy_slice copy none = pure none
  copy_slice copy (some s) = do
    first ← allocate s.len
    copy_items copy s.len s.first first
    pure (some (record { first = first; len = s.len }))

  -- `DeepCopy`, by the type's `DeepCopyInto`: nil for nil, or a new object
  unfoldable pub deep_copy : (A → M T A) → Option ℕ → M T (Option ℕ)
  unfolding allocate load store
  deep_copy copy none = pure none
  deep_copy copy (some p) = do
    out ← allocate 1
    x ← load p
    y ← copy x
    store out y
    pure (some out)

-- ===== src/DeepCopy/Slices.antt =====
-- The copies of slices and pointers (api/v1alpha1/zz_generated.deepcopy.go).
use etcdops.Base.{
  ℕ, zero, suc, ◌+◌, List, [], ◌∷◌, Option, none, some, ◌≡◌, refl, subst, inl, inr, arith,
  Option-cases, ltb, leb, ◌&&◌, if◌then◌else◌,
}
use etcdops.DeepCopy.Values.{Types, Slice}
use etcdops.DeepCopy.Memory.{
  Memory, M, Kind, value, load, store, allocate, copy_items, copy_slice, deep_copy,
}
use etcdops.DeepCopy.View.{View, view_items, view_slice, view_pointer}
use etcdops.DeepCopy.Deep.{Keeps, Agrees-refl, value-Agrees, Copied, IsDeep}
use etcdops.DeepCopy.Loop.{Loops, view_items-suc, copy_items-Loops}

module _ {T : Types} {A B : Type 0} (K : Kind T A) (copy : A → M T A) (view : View T A B)
    (D : IsDeep copy view) where
  view_items_stable :
      (n p : ℕ) (bs : List B) (m later : Memory T)
      → Keeps m later
      → view_items K view n p m ≡ some bs
      → view_items K view n p later ≡ some bs
  unfolding view_items
  view_items_stable zero p bs m later keeps h = h
  view_items_stable (suc n) p bs m later keeps h =
      let (a, b, rest, there, reads, others, split) = view_items-suc K copy view n p m h in
      let there' = value-Agrees K 0 p m later keeps (omega arith) there in
      let reads' = D.stable a b m later keeps reads in
      let others' = view_items_stable n (suc p) rest m later keeps others in ground arith

  -- The memory behind an allocation
  made : ℕ → Memory T → Memory T
  made n m = record {
    next = m.next + n;
    cells = λ (k : ℕ).
        if leb m.next k && ltb k (m.next + n) then some (K.wrap K.zero_value) else m.cells k;
  }

  allocate-made : (n : ℕ) (m : Memory T) → allocate K n m ≡ some (m.next, made n m)
  unfolding allocate made
  allocate-made n m = refl

  made-Keeps : (n : ℕ) (m : Memory T) → Keeps m (made n m)
  unfolding made
  made-Keeps n m = record { grows = omega arith; same = λ k low high. ground arith }

  made_next : (n : ℕ) (m : Memory T) → (made n m).next ≡ m.next + n
  unfolding made
  made_next n m = refl

  -- The loop over a slice that was just made
  fresh-Loops :
      (n source : ℕ) (bs : List B) (m : Memory T)
      → view_items K view n source m ≡ some bs
      → Loops K copy view n source m.next bs m (made n m)
  fresh-Loops n source bs m h =
      copy_items-Loops K copy view D n source m.next bs m (made n m) (made-Keeps n m) (omega arith)
        (let e = made_next n m in omega (arith, e)) h

  -- The copy of a slice
  slice-Copied :
      (s : Slice) (b : Option (List B)) (m : Memory T)
      → view_slice K view (some s) m ≡ some b
      → Copied (copy_slice K copy) (view_slice K view) (some s) b m
  unfolding copy_slice view_slice
  slice-Copied s b m h = elim (Option-cases (view_items K view s.len s.first m)) [
    | inl q ↦ absurd (ground arith)
    | inr (bs, q) ↦
        let loop = fresh-Loops s.len s.first bs m q in
        record {
          copy_of = some (record { first = m.next; len = s.len });
          after = loop.after;
          runs = let made_it = allocate-made s.len m in let ran = loop.runs in ground arith;
          keeps = loop.keeps;
          reads = λ later agrees. let same = loop.reads later agrees in ground arith;
        }
  ]

  slice_stable :
      (a : Option Slice) (b : Option (List B)) (m later : Memory T)
      → Keeps m later
      → view_slice K view a m ≡ some b
      → view_slice K view a later ≡ some b
  unfolding view_slice
  slice_stable none b m later keeps h = h
  slice_stable (some s) b m later keeps h =
      elim (Option-cases (view_items K view s.len s.first m)) [
        | inl q ↦ absurd (ground arith)
        | inr (bs, q) ↦
            let same = view_items_stable s.len s.first bs m later keeps q in ground arith
      ]

  view_slice_nil : (m later : Memory T) → view_slice K view none m ≡ view_slice K view none later
  unfolding view_slice
  view_slice_nil m later = refl

  slice_copies :
      (a : Option Slice) (b : Option (List B)) (m : Memory T)
      → view_slice K view a m ≡ some b
      → Copied (copy_slice K copy) (view_slice K view) a b m
  unfolding copy_slice
  slice_copies none b m h = record {
    copy_of = none;
    after = m;
    runs = refl;
    keeps = Agrees-refl 0 m;
    reads = λ later agrees. subst (λ x. x ≡ some b) (view_slice_nil m later) h;
  }
  slice_copies (some s) b m h = slice-Copied s b m h

  pub slice-IsDeep : IsDeep (copy_slice K copy) (view_slice K view)
  slice-IsDeep = record { stable = slice_stable; copies = slice_copies }

  pointer_runs :
      (p : ℕ) (m after : Memory T)
      → copy_items K copy 1 p m.next (made 1 m) ≡ some (tt, after)
      → deep_copy K copy (some p) m ≡ some (some m.next, after)
  unfolding copy_items deep_copy
  pointer_runs p m after h =
      let made_it = allocate-made 1 m in
      elim (Option-cases (load K p (made 1 m))) [
        | inl q ↦ absurd (ground arith)
        | inr ((x, m1), q) ↦ elim (Option-cases (copy x m1)) [
          | inl r ↦ absurd (ground arith)
          | inr ((y, m2), r) ↦ elim (Option-cases (store K m.next y m2)) [
            | inl u ↦ absurd (ground arith)
            | inr ((e, m3), u) ↦ ground arith
          ]
        ]
      ]

  -- The copy of what a pointer refers to: a loop of one round
  pointer-Copied :
      (p : ℕ) (b : Option B) (m : Memory T)
      → view_pointer K view (some p) m ≡ some b
      → Copied (deep_copy K copy) (view_pointer K view) (some p) b m
  unfolding view_pointer
  pointer-Copied p b m h = elim (Option-cases (value K p m)) [
    | inl q ↦ absurd (ground arith)
    | inr (a, q) ↦ elim (Option-cases (view a m)) [
      | inl r ↦ absurd (ground arith)
      | inr (x, r) ↦
          let loop = fresh-Loops 1 p (x ∷ []) m (unfold view_items in ground arith) in
          record {
            copy_of = some m.next;
            after = loop.after;
            runs = pointer_runs p m loop.after loop.runs;
            keeps = loop.keeps;
            reads = λ later agrees.
                let (c, y, rest, there, reads, _, split) =
                  view_items-suc K copy view 0 m.next later (loop.reads later agrees) in
                ground arith;
          }
    ]
  ]

  pointer_copies :
      (a : Option ℕ) (b : Option B) (m : Memory T)
      → view_pointer K view a m ≡ some b
      → Copied (deep_copy K copy) (view_pointer K view) a b m
  unfolding deep_copy view_pointer
  pointer_copies none b m h = record {
    copy_of = none;
    after = m;
    runs = refl;
    keeps = Agrees-refl 0 m;
    reads = λ later agrees. h;
  }
  pointer_copies (some p) b m h = pointer-Copied p b m h

  pointer_stable :
      (a : Option ℕ) (b : Option B) (m later : Memory T)
      → Keeps m later
      → view_pointer K view a m ≡ some b
      → view_pointer K view a later ≡ some b
  unfolding view_pointer
  pointer_stable none b m later keeps h = h
  pointer_stable (some p) b m later keeps h = elim (Option-cases (value K p m)) [
    | inl q ↦ absurd (ground arith)
    | inr (a, q) ↦ elim (Option-cases (view a m)) [
      | inl r ↦ absurd (ground arith)
      | inr (x, r) ↦
          let there = value-Agrees K 0 p m later keeps (omega arith) q in
          let same = D.stable a x m later keeps r in ground arith
    ]
  ]

  pub pointer-IsDeep : IsDeep (deep_copy K copy) (view_pointer K view)
  pointer-IsDeep = record { stable = pointer_stable; copies = pointer_copies }

-- ===== src/DeepCopy/Loop.antt =====
-- The loop over the items of a slice (api/v1alpha1/zz_generated.deepcopy.go).
use etcdops.Base.{
  ℕ, zero, suc, ◌+◌, ◌≤◌, ◌<◌, List, ◌∷◌, some, ◌≡◌, ◌≢◌, refl, ◌∙◌, inl, inr, arith, Option-cases,
}
use etcdops.DeepCopy.Values.{Types}
use etcdops.DeepCopy.Memory.{Memory, M, Kind, value, copy_items}
use etcdops.DeepCopy.Write.{
  overwritten, load-value, store-overwritten, value-overwritten, value_stays, overwritten-Keeps,
  Writes,
}
use etcdops.DeepCopy.View.{View, view_items}
use etcdops.DeepCopy.Deep.{Agrees, Keeps, Agrees-trans, Agrees-weaken, value-Agrees, IsDeep}

module _ {T : Types} {A B : Type 0} (K : Kind T A) (copy : A → M T A) (view : View T A B) where
  -- How the loop ends
  pub record Loops (n source target : ℕ) (bs : List B) (start m : Memory T) : Type 0 where
    pub after : Memory T
    pub runs : copy_items K copy n source target m ≡ some (tt, after)
    pub keeps : Keeps start after
    pub writes : Writes n target m after
    pub reads :
        (later : Memory T) → Agrees target after later → view_items K view n target later ≡ some bs

  -- The first element, and the others
  pub view_items-suc :
      (n p : ℕ) (m : Memory T) {bs : List B}
      → view_items K view (suc n) p m ≡ some bs
      → (a : A) × (b : B) × (rest : List B) × (value K p m ≡ some a)
        × (view a m ≡ some b)
        × (view_items K view n (suc p) m ≡ some rest)
        × (bs ≡ b ∷ rest)
  unfolding view_items
  view_items-suc n p m h = elim (Option-cases (value K p m)) [
    | inl q ↦ absurd (ground arith)
    | inr (a, q) ↦ elim (Option-cases (view a m)) [
      | inl r ↦ absurd (ground arith)
      | inr (b, r) ↦ elim (Option-cases (view_items K view n (suc p) m)) [
        | inl s ↦ absurd (ground arith)
        | inr (rest, s) ↦ (a, b, rest, q, r, s, ground arith)
      ]
    ]
  ]

  pub copy_items-Loops :
      IsDeep copy view
      → (n source target : ℕ) (bs : List B) (start m : Memory T) → Keeps start m
      → start.next ≤ target
      → target + n ≤ m.next
      → view_items K view n source start ≡ some bs
      → Loops n source target bs start m
  unfolding copy_items view_items
  copy_items-Loops D zero source target bs start m keeps new room known = record {
    after = m;
    runs = refl;
    keeps = keeps;
    writes = record { grows = omega arith; same = λ k low far. refl };
    reads = λ later agrees. known;
  }
  copy_items-Loops D (suc n) source target bs start m keeps new room known =
      let (a, b, rest, there, reads_b, others, split) = view_items-suc n source start known in
      let there_m = value-Agrees K 0 source start m keeps (omega arith) there in
      let c = D.copies a b m (D.stable a b start m keeps reads_b) in
      let small : target < c.after.next = omega (arith, room, c.keeps.grows) in
      let next = overwritten K target c.copy_of c.after in
      let kept : Keeps start next =
        overwritten-Keeps K target c.copy_of start c.after (Agrees-trans keeps c.keeps) new in
      let loop =
        copy_items-Loops D n (suc source) (suc target) rest start next kept (omega (arith, new))
          (omega (arith, room, c.keeps.grows)) others in
      record {
        after = loop.after;
        runs =
            let read = load-value K source m there_m in
            let wrote = store-overwritten K target c.copy_of c.after small in
            let copied = c.runs in let rest_runs = loop.runs in ground arith;
        keeps = loop.keeps;
        writes = record {
          grows = omega (arith, c.keeps.grows, loop.writes.grows);
          same = λ k low far.
              let first = c.keeps.same k (omega arith) low in
              let apart : k ≢ target = λ e. omega (arith, e, far) in
              let last =
                loop.writes.same k (omega (arith, low, c.keeps.grows)) (omega (arith, far)) in
              ground arith;
        };
        reads = λ later agrees.
            let small' : target < loop.after.next = omega (arith, small, loop.writes.grows) in
            let here =
              value_stays K target next later (value-overwritten K target c.copy_of c.after small)
                (omega (arith, loop.writes.grows, agrees.grows))
                (agrees.same target (omega arith) small'
                  ∙ loop.writes.same target small (inl (omega arith))) in
            let copy_reads = c.reads later (record {
              grows = omega (arith, loop.writes.grows, agrees.grows);
              same = λ k low high.
                  let first =
                    agrees.same k (omega (arith, low, room))
                      (omega (arith, high, loop.writes.grows)) in
                  let second = loop.writes.same k high (inr (omega (arith, low, room))) in
                  let apart : k ≢ target = λ e. omega (arith, e, low, room) in ground arith;
            }) in
            let rest_reads = loop.reads later (Agrees-weaken (omega arith) agrees) in ground arith;
      }

-- ===== src/Tests/Memory/Stored.antt =====
-- The members in memory are a store as the API server documents it.
use etcdops.Base.{
  true, false, List, [], ◌∷◌, Option, none, some, ◌≡◌, ◌≢◌, refl, sym, ◌∙◌, ap, eq_iff, arith, inl,
  inr, Bool-cases, Option-cases,
}
use etcdops.Kube.{ok, err, ObjectMeta, NamespacedName}
use etcdops.Types.Member.{Member}
use etcdops.Env.Store.{MemberStore, key_of}
use etcdops.Tests.Memory.{Store, Fault, memory, find, replace, same_key}

abbrev pub found : NamespacedName → List Member → Option Member
found k l = find (λ m. m.metadata) k.name k.namespace l

pub same_key-true :
    (k : NamespacedName) (m : ObjectMeta) → same_key k.name k.namespace m ≡ true → key_of m ≡ k
same_key-true k m h = ground (arith, eq_iff m.name k.name, eq_iff m.namespace k.namespace)

pub same_key_self : (m : ObjectMeta) → same_key m.name m.namespace m ≡ true
same_key_self m = ground (arith, eq_iff m.name m.name, eq_iff m.namespace m.namespace)

pub same_key_apart :
    (k : NamespacedName) (m : ObjectMeta) → k ≢ key_of m → same_key k.name k.namespace m ≡ false
same_key_apart k m h = elim (Bool-cases (same_key k.name k.namespace m)) [
  | inl t ↦ absurd (h (sym (same_key-true k m t)))
  | inr f ↦ f
]

pub found_keyed :
    (k : NamespacedName) (l : List Member) {m : Member} → found k l ≡ some m → key_of m.metadata ≡ k
found_keyed k [] h = absurd (ground arith)
found_keyed k (x ∷ xs) {m} h = elim (Bool-cases (same_key k.name k.namespace x.metadata)) [
  | inl t ↦
      let same : x ≡ m = ground arith in
      ap (λ y. key_of y.metadata) (sym same) ∙ same_key-true k x.metadata t
  | inr f ↦ found_keyed k xs {m = m} (ground arith)
]

pub found-replace :
    (a : Member) (l : List Member) {m : Member}
    → found (key_of a.metadata) l ≡ some m
    → found (key_of a.metadata) (replace (λ m. m.metadata) a l) ≡ some a
found-replace a [] h = absurd (ground arith)
found-replace a (x ∷ xs) {m} h =
    elim (Bool-cases (same_key a.metadata.name a.metadata.namespace x.metadata)) [
      | inl t ↦ ground (arith, same_key_self a.metadata)
      | inr f ↦ ground (arith, found-replace a xs {m = m} (ground arith))
    ]

pub found-replace_apart :
    (k : NamespacedName) (a : Member) (l : List Member)
    → k ≢ key_of a.metadata
    → found k (replace (λ m. m.metadata) a l) ≡ found k l
found-replace_apart k a [] h = refl
found-replace_apart k a (x ∷ xs) h =
    elim (Bool-cases (same_key a.metadata.name a.metadata.namespace x.metadata)) [
      | inl t ↦
          let same : key_of x.metadata ≡ key_of a.metadata =
            same_key-true (key_of a.metadata) x.metadata t in
          ground
            (arith, same_key_apart k a.metadata h, same_key_apart k x.metadata (λ e. h (e ∙ same)))
      | inr f ↦ ground (arith, found-replace_apart k a xs h)
    ]

-- `Update` of a member that is stored writes it with the status that is stored,
pub merged : Member → Member → Member
merged a m = record a { status = m.status }

pub update_known :
    (a : Member) (w : Store) {m : Member}
    → found (key_of a.metadata) w.members ≡ some m
    → ((memory.members.update a w).0 ≡ ok (merged a m))
      × ((memory.members.update a w).1.members ≡ replace (λ b. b.metadata) (merged a m) w.members)
unfolding merged
update_known a w known = (ground arith, ground arith)

-- and of another one writes nothing.
update_unknown :
    (a : Member) (w : Store)
    → found (key_of a.metadata) w.members ≡ none
    → ((memory.members.update a w).1.members ≡ w.members)
update_unknown a w unknown = ground arith

update_writes_memory :
    (a : Member) (w : Store) {m x : Member}
    → found (key_of a.metadata) w.members ≡ some m
    → (memory.members.update a w).0 ≡ ok x
    → (x.spec ≡ a.spec)
      × (x.status ≡ m.status)
      × (found (key_of a.metadata) (memory.members.update a w).1.members ≡ some x)
unfolding merged
update_writes_memory a w {m} {x} known wrote =
    let (answers, after) = update_known a w known in
    let same : merged a m ≡ x = ground arith in
    (
      ap (λ b. b.spec) (sym same),
      ap (λ b. b.status) (sym same),
      ap (found (key_of a.metadata)) after
          ∙ found-replace (merged a m) w.members known
          ∙ ap some same,
    )

update_refused_memory :
    (a : Member) (w : Store) {e : Fault}
    → (memory.members.update a w).0 ≡ err e
    → (memory.members.update a w).1.members ≡ w.members
update_refused_memory a w {e} failed = elim (Option-cases (found (key_of a.metadata) w.members)) [
  | inr (m, known) ↦ let (answers, _) = update_known a w known in absurd (ground arith)
  | inl unknown ↦ update_unknown a w unknown
]

update_keeps_memory :
    (a : Member) (w : Store) (k : NamespacedName)
    → k ≢ key_of a.metadata
    → found k (memory.members.update a w).1.members ≡ found k w.members
unfolding merged
update_keeps_memory a w k apart = elim (Option-cases (found (key_of a.metadata) w.members)) [
  | inr (m, known) ↦
      let (_, after) = update_known a w known in
      ap (found k) after ∙ found-replace_apart k (merged a m) w.members apart
  | inl unknown ↦ ap (found k) (update_unknown a w unknown)
]

pub memory-MemberStore : MemberStore memory
memory-MemberStore = record {
  lookup = λ k s. found k s.members;
  lookup_keyed = λ {k} {w} {m} h. found_keyed k w.members h;
  reference_keeps_key = λ {o} {owner} {meta} {meta'} h. ground arith;
  create_or_update_reads = λ {a} {m} {x} {mutate} {op} {w} known allowed done. ground arith;
  create_or_update_keeps = λ {a} {m} {mutate} {w} known allowed k. ground arith;
  update_writes = λ {a} {m} {x} {w} known wrote. update_writes_memory a w known wrote;
  update_refused = λ {a} {e} {w} failed k. ap (found k) (update_refused_memory a w failed);
  update_keeps_others = λ {a} {w} {k} apart. update_keeps_memory a w k apart;
}

pub memory-lookup :
    (k : NamespacedName) (s : Store) → memory-MemberStore.lookup k s ≡ found k s.members
unfolding memory-MemberStore
memory-lookup k s = refl

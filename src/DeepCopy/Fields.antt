-- ===== src/DeepCopy/Fields.antt =====
-- Structs of the API are copied field by field (api/v1alpha1/zz_generated.deepcopy.go): the copy is
-- deep if those of the fields are.
use etcdops.Base.{some, ◌≡◌, inl, inr, arith, Option-cases}
use etcdops.DeepCopy.Values.{Types, ObjectOf, ListOf}
use etcdops.DeepCopy.Memory.{Memory, M, pure, ◌>>=◌}
use etcdops.DeepCopy.View.{View, view_object, view_list}
use etcdops.DeepCopy.Deep.{Agrees, Keeps, Agrees-trans, Agrees-weaken, IsDeep}

module _ {T : Types} {A A' B B' : Type 0} (copy : A → M T A) (copy' : B → M T B)
    (view : View T A A') (view' : View T B B') where
  -- Two values copied one behind the other
  record Both (a : A) (b : B) (x : A') (y : B') (m : Memory T) : Type 0 where
    copy_a : A
    copy_b : B
    between : Memory T
    after : Memory T
    runs_a : copy a m ≡ some (copy_a, between)
    runs_b : copy' b between ≡ some (copy_b, after)
    keeps : Keeps m after
    reads_a : (later : Memory T) → Agrees m.next after later → view copy_a later ≡ some x
    reads_b : (later : Memory T) → Agrees m.next after later → view' copy_b later ≡ some y

  both :
      IsDeep copy view
      → IsDeep copy' view'
      → (a : A) (b : B) (x : A') (y : B') (m : Memory T) → view a m ≡ some x
      → view' b m ≡ some y
      → Both a b x y m
  both D E a b x y m h k =
      let c = D.copies a x m h in
      let d = E.copies b y c.after (E.stable b y m c.after c.keeps k) in
      let low = c.keeps.grows in
      record {
        copy_a = c.copy_of;
        copy_b = d.copy_of;
        between = c.after;
        after = d.after;
        runs_a = c.runs;
        runs_b = d.runs;
        keeps = Agrees-trans c.keeps d.keeps;
        reads_a = λ later agrees.
            c.reads later (Agrees-trans (Agrees-weaken (omega arith) d.keeps) agrees);
        reads_b = λ later agrees. d.reads later (Agrees-weaken low agrees);
      }

module _ {T : Types} {N S U : Type 0} (meta : N → M T N) (spec : S → M T S)
    (status : U → M T U) where
  unfoldable pub copy_object : ObjectOf N S U → M T (ObjectOf N S U)
  copy_object o = do
    x ← meta o.metadata
    y ← spec o.spec
    z ← status o.status
    pure (record o { metadata = x; spec = y; status = z })

module _ {T : Types} {N N' S S' U U' : Type 0} (meta : N → M T N) (spec : S → M T S)
    (status : U → M T U) (view_meta : View T N N') (view_spec : View T S S')
    (view_status : View T U U') where
  -- The fields of an object that reads
  object_fields :
      (o : ObjectOf N S U) (m : Memory T) {t : ObjectOf N' S' U'}
      → view_object view_meta view_spec view_status o m ≡ some t
      → (view_meta o.metadata m ≡ some t.metadata)
        × (view_spec o.spec m ≡ some t.spec)
        × (view_status o.status m ≡ some t.status)
        × (o.type_meta ≡ t.type_meta)
  unfolding view_object
  object_fields o m h = elim (Option-cases (view_meta o.metadata m)) [
    | inl q ↦ absurd (ground arith)
    | inr (x, q) ↦ elim (Option-cases (view_spec o.spec m)) [
      | inl r ↦ absurd (ground arith)
      | inr (y, r) ↦ elim (Option-cases (view_status o.status m)) [
        | inl u ↦ absurd (ground arith)
        | inr (z, u) ↦ (ground arith, ground arith, ground arith, ground arith)
      ]
    ]
  ]

  object_reads :
      (o : ObjectOf N S U) (m : Memory T) {t : ObjectOf N' S' U'}
      → view_meta o.metadata m ≡ some t.metadata
      → view_spec o.spec m ≡ some t.spec
      → view_status o.status m ≡ some t.status
      → o.type_meta ≡ t.type_meta
      → view_object view_meta view_spec view_status o m ≡ some t
  unfolding view_object
  object_reads o m x y z e = ground arith

  pub object-IsDeep :
      IsDeep meta view_meta
      → IsDeep spec view_spec
      → IsDeep status view_status
      → IsDeep (copy_object meta spec status) (view_object view_meta view_spec view_status)
  unfolding copy_object
  object-IsDeep D E F = record {
    stable = λ o t m later keeps h.
        let (x, y, z, e) = object_fields o m h in
        object_reads o later (D.stable o.metadata t.metadata m later keeps x)
          (E.stable o.spec t.spec m later keeps y) (F.stable o.status t.status m later keeps z) e;
    copies = λ o t m h.
        let (x, y, z, e) = object_fields o m h in
        let two =
          both meta spec view_meta view_spec D E o.metadata o.spec t.metadata t.spec m x y in
        let c =
          F.copies o.status t.status two.after
            (F.stable o.status t.status m two.after two.keeps z) in
        record {
          copy_of = record o { metadata = two.copy_a; spec = two.copy_b; status = c.copy_of };
          after = c.after;
          runs =
              let first = two.runs_a in
              let second = two.runs_b in let third = c.runs in ground arith;
          keeps = Agrees-trans two.keeps c.keeps;
          reads = λ later agrees.
              let held = Agrees-trans (Agrees-weaken (omega arith) c.keeps) agrees in
              object_reads
                (record o { metadata = two.copy_a; spec = two.copy_b; status = c.copy_of }) later
                (two.reads_a later held) (two.reads_b later held)
                (c.reads later (Agrees-weaken two.keeps.grows agrees)) e;
        };
  }

module _ {T : Types} {N I : Type 0} (meta : N → M T N) (items : I → M T I) where
  unfoldable pub copy_fields : ListOf N I → M T (ListOf N I)
  copy_fields l = do
    x ← meta l.metadata
    y ← items l.items
    pure (record l { metadata = x; items = y })

module _ {T : Types} {N N' I I' : Type 0} (meta : N → M T N) (items : I → M T I)
    (view_meta : View T N N') (view_items : View T I I') where
  list_fields :
      (l : ListOf N I) (m : Memory T) {t : ListOf N' I'}
      → view_list view_meta view_items l m ≡ some t
      → (view_meta l.metadata m ≡ some t.metadata)
        × (view_items l.items m ≡ some t.items)
        × (l.type_meta ≡ t.type_meta)
  unfolding view_list
  list_fields l m h = elim (Option-cases (view_meta l.metadata m)) [
    | inl q ↦ absurd (ground arith)
    | inr (x, q) ↦ elim (Option-cases (view_items l.items m)) [
      | inl r ↦ absurd (ground arith)
      | inr (y, r) ↦ (ground arith, ground arith, ground arith)
    ]
  ]

  list_reads :
      (l : ListOf N I) (m : Memory T) {t : ListOf N' I'}
      → view_meta l.metadata m ≡ some t.metadata
      → view_items l.items m ≡ some t.items
      → l.type_meta ≡ t.type_meta
      → view_list view_meta view_items l m ≡ some t
  unfolding view_list
  list_reads l m x y e = ground arith

  pub list-IsDeep :
      IsDeep meta view_meta
      → IsDeep items view_items
      → IsDeep (copy_fields meta items) (view_list view_meta view_items)
  unfolding copy_fields
  list-IsDeep D E = record {
    stable = λ l t m later keeps h.
        let (x, y, e) = list_fields l m h in
        list_reads l later (D.stable l.metadata t.metadata m later keeps x)
          (E.stable l.items t.items m later keeps y) e;
    copies = λ l t m h.
        let (x, y, e) = list_fields l m h in
        let two =
          both meta items view_meta view_items D E l.metadata l.items t.metadata t.items m x y in
        record {
          copy_of = record l { metadata = two.copy_a; items = two.copy_b };
          after = two.after;
          runs = let first = two.runs_a in let second = two.runs_b in ground arith;
          keeps = two.keeps;
          reads = λ later agrees.
              list_reads (record l { metadata = two.copy_a; items = two.copy_b }) later
                (two.reads_a later agrees) (two.reads_b later agrees) e;
        };
  }

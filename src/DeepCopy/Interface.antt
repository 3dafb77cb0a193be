-- ===== src/DeepCopy/Interface.antt =====
-- `DeepCopyObject` (api/v1alpha1/zz_generated.deepcopy.go), of every type of the package that is a
-- `runtime.Object`.
use etcdops.Base.{
  ℕ, Option, none, some, ◌≡◌, refl, sym, ◌∙◌, ap, subst, inl, inr, arith, Option-cases,
}
use etcdops.DeepCopy.Values.{Types}
use etcdops.DeepCopy.Memory.{Memory, M, Kind, value, deep_copy, ◌>>=◌}
use etcdops.DeepCopy.Kinds.{
  backup_kind, backup_list_kind, backup_schedule_kind, backup_schedule_list_kind, cluster_kind,
  cluster_list_kind, member_kind, member_list_kind,
}
use etcdops.DeepCopy.View.{
  View, Reads, view_pointer, view_backup, view_backup_schedule, view_cluster, view_member,
  view_list_of,
}
use etcdops.DeepCopy.Deep.{Agrees, Keeps, Agrees-refl, IsDeep}
use etcdops.DeepCopy.Slices.{pointer-IsDeep}
use etcdops.DeepCopy.Objects.{
  IsDeepLibrary, backup-IsDeep, backup_schedule-IsDeep, cluster-IsDeep, member-IsDeep,
  list_of-IsDeep,
}
use etcdops.DeepCopy.{
  RuntimeObject, as_object, deep_copy_object, deep_copy_backup, deep_copy_backup_object,
  deep_copy_backup_list, deep_copy_backup_list_object, deep_copy_backup_schedule,
  deep_copy_backup_schedule_object, deep_copy_backup_schedule_list,
  deep_copy_backup_schedule_list_object, deep_copy_cluster, deep_copy_cluster_object,
  deep_copy_cluster_list, deep_copy_cluster_list_object, deep_copy_member, deep_copy_member_object,
  deep_copy_member_list, deep_copy_member_list_object,
}
use etcdops.DeepCopy.Into.{
  Library, copy_backup, copy_backup_schedule, copy_cluster, copy_member, copy_list,
  copy_backup_list, copy_backup_schedule_list, copy_cluster_list, copy_member_list,
}
use etcdops.DeepCopy.Tree.{Tree, under, view_runtime, view_interface}

-- The memory behind a copy
abbrev pub behind : {T : Types} {A : Type 0} → Memory T → Option (A × Memory T) → Memory T
behind m none = m
behind m (some (a, after)) = after

module _ {T : Types} (L : Library T) (R : Reads T) where
  -- What the copy of `o` is to be, if `o` reads as `t`
  record Shares (o : RuntimeObject) (t : Option (Tree T)) (m : Memory T) : Type 0 where
    copy_of : Option RuntimeObject
    after : Memory T
    runs : deep_copy_object T L o m ≡ some (copy_of, after)
    keeps : Keeps m after
    reads : (later : Memory T) → Agrees m.next after later → view_interface R copy_of later ≡ some t
    nil : t ≡ none → copy_of ≡ none
    stays : (later : Memory T) → Keeps m later → view_runtime R o later ≡ some t

  -- Another pointer reads as an object.
  pointer_reads :
      {A B : Type 0} (K : Kind T A) (view : View T A B) (p : ℕ) (m : Memory T)
      → view_pointer K view (some p) m ≡ some none
      → ⊥
  unfolding view_pointer
  pointer_reads K view p m h = elim (Option-cases (value K p m)) [
    | inl q ↦ absurd (ground arith)
    | inr (a, q) ↦ elim (Option-cases (view a m)) [
      | inl r ↦ absurd (ground arith)
      | inr (b, r) ↦ absurd (ground arith)
    ]
  ]

  -- A nil pointer reads as nothing.
  nil_reads :
      {A B : Type 0} (K : Kind T A) (view : View T A B) (object : Option ℕ → RuntimeObject)
      (tree : B → Tree T) (p c : Option ℕ) (b : Option B) (t : Option (Tree T)) (m later : Memory T)
      → c ≡ none
      → view_pointer K view c later ≡ some b
      → view_pointer K view p m ≡ some b
      → view_runtime R (object p) m ≡ under T tree (view_pointer K view p m)
      → view_runtime R (object p) m ≡ some t
      → view_interface R none later ≡ some t
  unfolding view_interface view_pointer
  nil_reads K view object tree p c b t m later nil there q at_m h =
      let bare : view_pointer K view none later ≡ some b =
        ap (λ x. view_pointer K view x later) (sym nil) ∙ there in
      let empty : b ≡ none = ground (arith, bare) in ground arith

  -- From a pointer to the interface
  pointer-Shares :
      {A B : Type 0} (K : Kind T A) (copy : A → M T A) (view : View T A B)
      (object : Option ℕ → RuntimeObject) (tree : B → Tree T)
      → IsDeep copy view
      → ((p : Option ℕ) (m : Memory T)
          → deep_copy_object T L (object p) m
            ≡ (do c ← deep_copy K copy p; as_object T L object c) m)
      → ((p : Option ℕ) (m : Memory T)
          → view_runtime R (object p) m ≡ under T tree (view_pointer K view p m))
      → (p : Option ℕ) (t : Option (Tree T)) (m : Memory T) → view_runtime R (object p) m ≡ some t
      → Shares (object p) t m
  unfolding view_interface as_object
  pointer-Shares K copy view object tree deep copies views p t m h =
      let D = pointer-IsDeep K copy view deep in
      let at_m = views p m in
      elim (Option-cases (view_pointer K view p m)) [
        | inl q ↦ absurd (ground arith)
        | inr (b, q) ↦
            let c = D.copies p b m q in
            let ran = c.runs in
            let goes = copies p m in
            let stays = λ (later : Memory T) (keeps : Keeps m later).
              let same = D.stable p b m later keeps q in
              let there = views p later in
              let to : view_runtime R (object p) later ≡ some t = ground arith in to in
            elim (Option-cases c.copy_of) [
              | inl r ↦ record {
                copy_of = none;
                after = c.after;
                runs = ground arith;
                keeps = c.keeps;
                reads = λ later agrees.
                    let nil = c.reads later agrees in
                    nil_reads K view object tree p c.copy_of b t m later r nil q at_m h;
                nil = λ e. refl;
                stays = stays;
              }
              | inr (x, r) ↦ record {
                copy_of = some (object (some x));
                after = c.after;
                runs = ground arith;
                keeps = c.keeps;
                reads = λ later agrees.
                    let same = c.reads later agrees in
                    let there = views (some x) later in ground arith;
                nil = λ e.
                    let same = c.reads c.after (Agrees-refl m.next c.after) in
                    let empty : b ≡ none = elim (Option-cases b) [
                      | inl u ↦ u
                      | inr (y, u) ↦ absurd (ground arith)
                    ] in
                    absurd (
                      pointer_reads K view x c.after
                        (ap (λ q. view_pointer K view q c.after) (sym r) ∙ same ∙ ap some empty));
                stays = stays;
              }
            ]
      ]

module _ {T : Types} {L : Library T} {R : Reads T} (D : IsDeepLibrary T L R) where
  object-Shares :
      (o : RuntimeObject) (t : Option (Tree T)) (m : Memory T)
      → view_runtime R o m ≡ some t
      → Shares L R o t m
  unfolding deep_copy_object view_runtime deep_copy_backup deep_copy_backup_object
      deep_copy_backup_list deep_copy_backup_list_object deep_copy_backup_schedule
      deep_copy_backup_schedule_object deep_copy_backup_schedule_list
      deep_copy_backup_schedule_list_object deep_copy_cluster deep_copy_cluster_object
      deep_copy_cluster_list deep_copy_cluster_list_object deep_copy_member deep_copy_member_object
      deep_copy_member_list deep_copy_member_list_object copy_backup_list copy_backup_schedule_list
      copy_cluster_list copy_member_list
  object-Shares (RuntimeObject.backup p) t m h =
      pointer-Shares L R (backup_kind T) (copy_backup T L) (view_backup R) RuntimeObject.backup
        Tree.backup (backup-IsDeep D) (λ q n. refl) (λ q n. refl) p t m h
  object-Shares (RuntimeObject.backup_list p) t m h =
      pointer-Shares L R (backup_list_kind T) (copy_list T L (backup_kind T) (copy_backup T L))
        (view_list_of R (backup_kind T) (view_backup R)) RuntimeObject.backup_list Tree.backup_list
        (list_of-IsDeep D (backup_kind T) (copy_backup T L) (view_backup R) (backup-IsDeep D))
        (λ q n. refl) (λ q n. refl) p t m h
  object-Shares (RuntimeObject.backup_schedule p) t m h =
      pointer-Shares L R (backup_schedule_kind T) (copy_backup_schedule T L)
        (view_backup_schedule R) RuntimeObject.backup_schedule Tree.backup_schedule
        (backup_schedule-IsDeep D) (λ q n. refl) (λ q n. refl) p t m h
  object-Shares (RuntimeObject.backup_schedule_list p) t m h =
      pointer-Shares L R (backup_schedule_list_kind T)
        (copy_list T L (backup_schedule_kind T) (copy_backup_schedule T L))
        (view_list_of R (backup_schedule_kind T) (view_backup_schedule R))
        RuntimeObject.backup_schedule_list Tree.backup_schedule_list
        (list_of-IsDeep D (backup_schedule_kind T) (copy_backup_schedule T L)
          (view_backup_schedule R) (backup_schedule-IsDeep D))
        (λ q n. refl) (λ q n. refl) p t m h
  object-Shares (RuntimeObject.cluster p) t m h =
      pointer-Shares L R (cluster_kind T) (copy_cluster T L) (view_cluster R) RuntimeObject.cluster
        Tree.cluster (cluster-IsDeep D) (λ q n. refl) (λ q n. refl) p t m h
  object-Shares (RuntimeObject.cluster_list p) t m h =
      pointer-Shares L R (cluster_list_kind T) (copy_list T L (cluster_kind T) (copy_cluster T L))
        (view_list_of R (cluster_kind T) (view_cluster R)) RuntimeObject.cluster_list
        Tree.cluster_list
        (list_of-IsDeep D (cluster_kind T) (copy_cluster T L) (view_cluster R) (cluster-IsDeep D))
        (λ q n. refl) (λ q n. refl) p t m h
  object-Shares (RuntimeObject.member p) t m h =
      pointer-Shares L R (member_kind T) (copy_member T L) (view_member R) RuntimeObject.member
        Tree.member (member-IsDeep D) (λ q n. refl) (λ q n. refl) p t m h
  object-Shares (RuntimeObject.member_list p) t m h =
      pointer-Shares L R (member_list_kind T) (copy_list T L (member_kind T) (copy_member T L))
        (view_list_of R (member_kind T) (view_member R)) RuntimeObject.member_list Tree.member_list
        (list_of-IsDeep D (member_kind T) (copy_member T L) (view_member R) (member-IsDeep D))
        (λ q n. refl) (λ q n. refl) p t m h

  -- If the copies that apimachinery makes are deep (`IsDeepLibrary`), then `DeepCopyObject` of every
  -- type of the package, of an object whose pointers do not dangle, runs to its end and writes nothing
  -- that is there. The copy reads the same as the object, with all that both refer to, and goes on so
  -- in any later memory that keeps what the copy has allocated, whatever is written to the object; and
  -- the object goes on so in any memory that keeps what was there before, whatever is written to the
  -- copy. A nil pointer is copied to the nil interface.
  pub deep_copy_object_shares_nothing :
      (o : RuntimeObject) (t : Option (Tree T)) (m later changed : Memory T)
      → view_runtime R o m ≡ some t
      → Agrees m.next (behind m (deep_copy_object T L o m)) later
      → Keeps m changed
      → (c : Option RuntimeObject) × (after : Memory T) × (deep_copy_object T L o m
          ≡ some (c, after))
        × Keeps m after
        × (view_interface R c later ≡ some t)
        × (t ≡ none → c ≡ none)
        × (view_runtime R o changed ≡ some t)
  deep_copy_object_shares_nothing o t m later changed h kept keeps =
      let s = object-Shares o t m h in
      (
        s.copy_of,
        s.after,
        s.runs,
        s.keeps,
        s.reads later (subst (λ r. Agrees m.next (behind m r) later) s.runs kept),
        s.nil,
        s.stays changed keeps,
      )

-- ===== src/DeepCopy/Objects.antt =====
-- The copies of API objects are deep (api/v1alpha1/zz_generated.deepcopy.go).
use etcdops.Base.{Option, some, ◌≡◌, refl, inl, inr, arith, Option-cases}
use etcdops.Kube.{Time}
use etcdops.DeepCopy.Values.{Types, MemberSpecOf, MemberSpecValue, Strings, Slice}
use etcdops.DeepCopy.Memory.{Memory, M, Kind, pure, copy_slice}
use etcdops.DeepCopy.Kinds.{text_kind}
use etcdops.DeepCopy.View.{
  View, Reads, as_is, view_slice, view_member_spec, view_backup, view_backup_schedule, view_cluster,
  view_member, view_list_of,
}
use etcdops.DeepCopy.Deep.{IsDeep, pure-IsDeep, same-IsDeep}
use etcdops.DeepCopy.Slices.{slice-IsDeep}
use etcdops.DeepCopy.Fields.{copy_object, object-IsDeep, copy_fields, list-IsDeep}
use etcdops.DeepCopy.Into.{
  Library, copy_backup_status, copy_member_spec, copy_member_status, copy_backup,
  copy_backup_schedule, copy_cluster, copy_member, copy_list,
}

-- What apimachinery documents: its copies are deep, and an instant is copied as it is.
pub record IsDeepLibrary (T : Types) (L : Library T) (R : Reads T) : Type 0 where
  pub meta : IsDeep L.copy_meta R.meta
  pub list_meta : IsDeep L.copy_list_meta R.list_meta
  pub time : (t : Time) → L.copy_time t ≡ t

module _ {T : Types} (L : Library T) where
  -- `Members` is a slice of strings.
  spec_fields :
      (s : MemberSpecValue) (m : Memory T) {t : MemberSpecOf Strings}
      → view_member_spec s m ≡ some t
      → (view_slice (text_kind T) as_is s.members m ≡ some t.members)
        × (((later : Memory T) (l : Option Slice)
            → view_slice (text_kind T) as_is l later ≡ some t.members
            → view_member_spec (record s { members = l }) later ≡ some t))
  unfolding view_member_spec
  spec_fields s m h = elim (Option-cases (view_slice (text_kind T) as_is s.members m)) [
    | inl q ↦ absurd (ground arith)
    | inr (l, q) ↦ (ground arith, λ later l' same. ground arith)
  ]

  texts-IsDeep : IsDeep (copy_slice (text_kind T) pure) (view_slice (text_kind T) as_is)
  texts-IsDeep = slice-IsDeep (text_kind T) pure as_is pure-IsDeep

  member_spec-IsDeep : IsDeep (copy_member_spec T L) view_member_spec
  unfolding copy_member_spec
  member_spec-IsDeep = record {
    stable = λ s t m later keeps h.
        let (there, reads) = spec_fields s m h in
        reads later s.members (texts-IsDeep.stable s.members t.members m later keeps there);
    copies = λ s t m h.
        let (there, reads) = spec_fields s m h in
        let c = texts-IsDeep.copies s.members t.members m there in
        record {
          copy_of = record s { members = c.copy_of };
          after = c.after;
          runs = let ran = c.runs in ground arith;
          keeps = c.keeps;
          reads = λ later agrees. reads later c.copy_of (c.reads later agrees);
        };
  }

module _ {T : Types} {L : Library T} {R : Reads T} (D : IsDeepLibrary T L R) where
  backup_status-IsDeep : IsDeep (copy_backup_status T L) as_is
  unfolding copy_backup_status
  backup_status-IsDeep =
      same-IsDeep (copy_backup_status T L) pure as_is
        (λ s m. let same = D.time s.finished in ground arith) pure-IsDeep

  member_status-IsDeep : IsDeep (copy_member_status T L) as_is
  unfolding copy_member_status
  member_status-IsDeep =
      same-IsDeep (copy_member_status T L) pure as_is
        (λ s m. let same = D.time s.failed_time in ground arith) pure-IsDeep

  pub backup-IsDeep : IsDeep (copy_backup T L) (view_backup R)
  unfolding copy_backup view_backup copy_object
  backup-IsDeep =
      same-IsDeep (copy_backup T L) (copy_object L.copy_meta pure (copy_backup_status T L))
        (view_backup R) (λ b m. refl)
        (object-IsDeep L.copy_meta pure (copy_backup_status T L) R.meta as_is as_is D.meta
          pure-IsDeep backup_status-IsDeep)

  pub backup_schedule-IsDeep : IsDeep (copy_backup_schedule T L) (view_backup_schedule R)
  unfolding copy_backup_schedule view_backup_schedule copy_object
  backup_schedule-IsDeep =
      same-IsDeep (copy_backup_schedule T L) (copy_object L.copy_meta pure pure)
        (view_backup_schedule R) (λ b m. refl)
        (object-IsDeep L.copy_meta pure pure R.meta as_is as_is D.meta pure-IsDeep pure-IsDeep)

  pub cluster-IsDeep : IsDeep (copy_cluster T L) (view_cluster R)
  unfolding copy_cluster view_cluster copy_object
  cluster-IsDeep =
      same-IsDeep (copy_cluster T L) (copy_object L.copy_meta pure pure) (view_cluster R)
        (λ b m. refl)
        (object-IsDeep L.copy_meta pure pure R.meta as_is as_is D.meta pure-IsDeep pure-IsDeep)

  pub member-IsDeep : IsDeep (copy_member T L) (view_member R)
  unfolding copy_member view_member copy_object
  member-IsDeep =
      same-IsDeep (copy_member T L)
        (copy_object L.copy_meta (copy_member_spec T L) (copy_member_status T L)) (view_member R)
        (λ b m. refl)
        (object-IsDeep L.copy_meta (copy_member_spec T L) (copy_member_status T L) R.meta
          view_member_spec as_is D.meta (member_spec-IsDeep L) member_status-IsDeep)

  pub list_of-IsDeep :
      {A B : Type 0} (K : Kind T A) (copy : A → M T A) (view : View T A B)
      → IsDeep copy view
      → IsDeep (copy_list T L K copy) (view_list_of R K view)
  unfolding copy_list view_list_of copy_fields
  list_of-IsDeep K copy view deep =
      same-IsDeep (copy_list T L K copy) (copy_fields L.copy_list_meta (copy_slice K copy))
        (view_list_of R K view) (λ l m. refl)
        (list-IsDeep L.copy_list_meta (copy_slice K copy) R.list_meta (view_slice K view)
          D.list_meta (slice-IsDeep K copy view deep))

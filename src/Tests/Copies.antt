-- ===== src/Tests/Copies.antt =====
-- A list of two members is copied, and then everything that it refers to is overwritten.
use etcdops.Base.{
  ℕ, zero, suc, String, false, ◌∷◌, [], Option, some, none, ◌≡◌, refl, arith, ltb, if◌then◌else◌,
}
use etcdops.Kube.{zero_time}
use etcdops.Types.Member.{MemberPhase}
use etcdops.DeepCopy.Values.{Types, TypeMeta, Cell, Slice, MemberValue, MemberSpecOf}
use etcdops.DeepCopy.Memory.{
  Memory, Kind, pure, value, load, store, allocate, copy_items, copy_slice, deep_copy,
}
use etcdops.DeepCopy.View.{
  Reads, as_is, view_items, view_slice, view_pointer, view_object, view_list, view_member_spec,
  view_member, view_list_of,
}
use etcdops.DeepCopy.Deep.{Agrees, Keeps, Agrees-refl, pure-IsDeep}
use etcdops.DeepCopy.Slices.{pointer-IsDeep}
use etcdops.DeepCopy.Objects.{IsDeepLibrary}
use etcdops.DeepCopy.Tree.{Tree, view_runtime, view_interface}
use etcdops.DeepCopy.Interface.{behind, deep_copy_object_shares_nothing}
use etcdops.DeepCopy.{
  RuntimeObject, deep_copy_object, deep_copy_member_list, deep_copy_member_list_object, as_object,
}
use etcdops.DeepCopy.Into.{
  Library, copy_member_list, copy_list, copy_member, copy_member_spec, copy_member_status,
}

-- Metadata that is a pointer to a text, for the labels
abbrev plain : Types
plain = record {
  Part = String;
  Meta = Option ℕ;
  ListMeta = Unit {0};
  MetaTree = Option String;
  ListMetaTree = Unit {0};
  zero_meta = none;
  zero_list_meta = tt;
}

abbrev as_part : Cell plain → Option String
as_part (Cell.part s) = some s
as_part _ = none

abbrev part_kind : Kind plain String
part_kind = record { zero_value = ""; wrap = Cell.part; unwrap = as_part; unwrap_wrap = λ a. refl }

abbrev library : Library plain
library = record { copy_meta = deep_copy part_kind pure; copy_list_meta = pure; copy_time = λ t. t }

abbrev reading : Reads plain
reading = record { meta = view_pointer part_kind as_is; list_meta = as_is }

library-IsDeepLibrary : IsDeepLibrary plain library reading
library-IsDeepLibrary = record {
  meta = pointer-IsDeep part_kind pure as_is pure-IsDeep;
  list_meta = pure-IsDeep;
  time = λ t. refl;
}

abbrev member_type : TypeMeta
member_type = record { kind = "Member"; api_version = "v1alpha1" }

abbrev spec_of : {I : Type 0} → I → MemberSpecOf I
spec_of members = record {
  version = "3.5.1";
  backup = "";
  cluster_name = "etcd";
  cluster_token = "token";
  members = members;
  broken = false;
  certificate_update = false;
}

abbrev member_at : Option ℕ → Option Slice → MemberValue plain
member_at labels members = record {
  type_meta = member_type;
  metadata = labels;
  spec = spec_of members;
  status = record {
    version = "";
    phase = MemberPhase.unset;
    failed_time = zero_time;
    certificate_expires = false;
  };
}

-- The names of the members stand at 0 and 1, labels at 2, the members at 3 and 4, the list at 5.
abbrev cells : ℕ → Option (Cell plain)
cells zero = some (Cell.text "etcd-0")
cells (suc zero) = some (Cell.text "etcd-1")
cells (suc (suc zero)) = some (Cell.part "labels")
cells (suc (suc (suc zero))) =
    some (Cell.member (member_at (some 2) (some (record { first = 0; len = 2 }))))
cells (suc (suc (suc (suc zero)))) = some (Cell.member (member_at none none))
cells (suc (suc (suc (suc (suc zero))))) = some (
    Cell.member_list (record {
      type_meta = member_type;
      metadata = tt;
      items = some (record { first = 3; len = 2 });
    }))
cells (suc (suc (suc (suc (suc (suc k)))))) = none

abbrev start : Memory plain
start = record { next = 6; cells = cells }

abbrev list_tree : Option (Tree plain)
list_tree = some (
    Tree.member_list (record {
      type_meta = member_type;
      metadata = tt;
      items = some (
          record {
            type_meta = member_type;
            metadata = some "labels";
            spec = spec_of (some ("etcd-0" ∷ "etcd-1" ∷ []));
            status = (member_at none none).status;
          }
          ∷ record {
            type_meta = member_type;
            metadata = none;
            spec = spec_of none;
            status = (member_at none none).status;
          }
          ∷ []);
    }))

start_reads : view_runtime reading (RuntimeObject.member_list (some 5)) start ≡ some list_tree
unfolding view_runtime view_pointer value view_list_of view_list view_slice view_items view_member
    view_object view_member_spec
start_reads = refl

-- Everything that was there is overwritten.
abbrev wiped : Memory plain → Memory plain
wiped m = record m { cells = λ (k : ℕ). if ltb k 6 then none else m.cells k }

wiped-Agrees : (m : Memory plain) → Agrees 6 m (wiped m)
wiped-Agrees m = record { grows = omega arith; same = λ k low high. ground arith }

abbrev copied : Option (Option RuntimeObject × Memory plain)
copied = deep_copy_object plain library (RuntimeObject.member_list (some 5)) start

deep_copy_object_shares_nothing_example :
    (c : Option RuntimeObject) × (after : Memory plain) × (copied ≡ some (c, after))
    × Keeps start after
    × (view_interface reading c (wiped (behind start copied)) ≡ some list_tree)
    × (list_tree ≡ none → c ≡ none)
    × (view_runtime reading (RuntimeObject.member_list (some 5)) start ≡ some list_tree)
deep_copy_object_shares_nothing_example =
    deep_copy_object_shares_nothing library-IsDeepLibrary (RuntimeObject.member_list (some 5))
      list_tree start (wiped (behind start copied)) start start_reads
      (wiped-Agrees (behind start copied)) (Agrees-refl 0 start)

-- The list is copied to address 6, its members to 7 and 8.
copied_list : copied ≡ some (some (RuntimeObject.member_list (some 6)), behind start copied)
unfolding deep_copy_object deep_copy_member_list_object deep_copy_member_list deep_copy as_object
    copy_member_list copy_list copy_slice copy_items copy_member copy_member_spec copy_member_status
    allocate load store value
copied_list = refl

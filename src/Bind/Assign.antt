-- ===== src/Bind/Assign.antt =====
-- internal/bind/bind.go: the binder. It answers the value after the call, with the errors that the call
-- has added. `assign` recurs on the type of the destination.
pub mod Parts
pub mod Typed
pub mod Kept
pub mod Whole
pub mod Panics
use consulx.Prelude.{
  ℕ, suc, leb, ◌%◌, Bool, true, false, ◌&&◌, ◌||◌, not, List, [], ◌∷◌, ◌++◌, map, Option, none,
  some, Text, text_eq, codes, ltb, ◌==◌, if◌then◌else◌, is_empty, any_of, split, Bool-cases,
}
use consulx.Prelude.Trim.{trim_space}
use consulx.Prelude.Cut.{cut_char}
use consulx.Prelude.Strconv.{atoi}
use consulx.Prelude.Decimal.{itoa}
use consulx.Prelude.Dict.{Dict, lookup}
use consulx.Prelude.Int.{ℤ, pos, negsuc}
use consulx.Prelude.Sort.{sort}
use consulx.Bind.{
  Raw, text, bytes, boolean, int, uint, float, null, list, object, other, RawFields, items_of,
  dict_of, FieldInfo, GoType, string_type, bool_type, float_type, duration_type, any_type,
  map_of_other, closed, int_type, uint_type, custom, pointer_type, map_type, slice_type,
  struct_type, FieldTypes, no_type, field_type, GoValue, string_value, bool_value, int_value,
  uint_value, float_value, duration_value, custom_value, any_value, nil_value, pointer_value,
  map_value, slice_value, struct_value, GoValues, no_value, value, GoEntries, no_entry, entry,
  Problem, required, unknown_key, expected_scalar, expected_object, expected_list, string_keys_only,
  not_numeric, bad_text, Error, Bound, Binder,
}
use consulx.Bind.Keys.{same_key, find_key, or_null}
use consulx.Bind.Scalars.{scalar, set_scalar, Set, is_set, fails}
use consulx.Bind.Fields.{
  join, FieldSpec, spec, embedded_fields, matches_any_field, zero_value, zero_values,
}
use consulx.Bind.Values.{
  assign_custom, assign_scalar, assign_any, assign_pointer, both, wrap, assign_map, refuse_map,
  slice_items, assign_slice,
}

-- What is done with a field.
pub data Plan : Type 0 where
  leave embed complain section : Plan
  take : Text → Raw → Plan
  fill : Text → Plan

abbrev pub is_struct : GoType → Bool
is_struct (struct_type fs) = true
is_struct t = false

missing_plan : FieldInfo → GoType → FieldSpec → Plan
missing_plan f t s = elim f.default [
  | some d ↦ fill d
  | none ↦ if s.required then complain else if is_struct t then section else leave
]

key_plan : FieldInfo → GoType → FieldSpec → Option (Text × Raw) → Plan
unfolding missing_plan
key_plan f t s none = missing_plan f t s
key_plan f t s (some (k, r)) = take k r

abbrev pub is_some {ℓ} : {A : Type ℓ} → Option A → Bool
is_some none = false
is_some (some a) = true

unfoldable pub plan : FieldInfo → GoType → Dict Raw → Plan
unfolding key_plan
plan f t tree =
    if not f.exported || (spec f).skip
    then leave
    else if f.anonymous && (not (is_some f.tag) && is_some (embedded_fields t))
    then embed
    else key_plan f t (spec f) (find_key (spec f).name tree)

-- The keys that are used, beside the value and the errors.
abbrev pub FieldsBound : Type 0 → Type 0
FieldsBound A = Option (A × List Error × List Text)

unfoldable pub using : List Text → Bound GoValue → FieldsBound GoValue
using used none = none
using used (some (v, es)) = some (v, es, used)

-- One turn of the loop of `bindStruct`, given how the field is assigned to, how it is bound as an
-- embedded struct, and how as a section that is missing.
unfoldable pub perform :
    Plan
    → Text
    → Text
    → GoValue
    → (Text → Raw → GoValue → Bound GoValue)
    → (GoValue → Bound GoValue)
    → (Text → GoValue → Bound GoValue)
    → FieldsBound GoValue
unfolding using
perform leave path name v assign embedded missing = some (v, [], [])
perform embed path name v assign embedded missing = using [] (embedded v)
perform complain path name v assign embedded missing = some (v, (join path name, required) ∷ [], [])
perform section path name v assign embedded missing = using [] (missing (join path name) v)
perform (take k r) path name v assign embedded missing = using (k ∷ []) (assign (join path k) r v)
perform (fill d) path name v assign embedded missing = using [] (assign (join path name) (text d) v)

abbrev pub and_fields :
    GoValue × List Error × List Text
    → GoValues × List Error × List Text
    → GoValues × List Error × List Text
and_fields (v, es, used) (vs, more, others) = (value v vs, es ++ more, used ++ others)

abbrev pub head_or : GoValue → GoValues → GoValue
head_or v no_value = v
head_or v (value w ws) = w

abbrev pub tail_or : GoValues → GoValues → GoValues
tail_or vs no_value = vs
tail_or vs (value w ws) = ws

abbrev pub fields_or : GoValues → GoValue → GoValues
fields_or vs (struct_value ws) = ws
fields_or vs v = vs

-- The target of a pointer, a new one if it is nil.
abbrev pub target_or : GoValue → GoValue → GoValue
target_or v (pointer_value w) = w
target_or v w = v

contains : Text → List Text → Bool
contains k ks = any_of (λ j. text_eq j k) ks

unfoldable pub unknown_keys : FieldTypes → Text → List Text → Dict Raw → List Error
unfolding contains
unknown_keys fs path used [] = []
unknown_keys fs path used ((k, r) ∷ tree) =
    let rest = unknown_keys fs path used tree in
    if contains k used || matches_any_field fs k then rest else (join path k, unknown_key) ∷ rest

-- The end of `bindStruct`.
unfoldable pub finish : Bool → FieldTypes → Text → Dict Raw → FieldsBound GoValues → Bound GoValue
unfolding unknown_keys
finish error_unused fs path tree none = none
finish error_unused fs path tree (some (vs, es, used)) =
    some (struct_value vs, es ++ (if error_unused then unknown_keys fs path used tree else []))

unfoldable pub as_struct : Text → Raw → GoValue → (Dict Raw → Bound GoValue) → Bound GoValue
as_struct key (object fs) v bound = bound (dict_of fs)
as_struct key raw v bound = some (v, (key, expected_object) ∷ [])

unfoldable mutual
  unfolding as_struct

  pub assign : GoType → Binder → Text → Raw → GoValue → Bound GoValue
  assign (custom id) b key raw v = assign_custom b key id (scalar b raw) v
  assign (pointer_type t) b key raw v = assign_pointer raw v (assign t b key raw (zero_value t))
  assign (struct_type fs) b key raw v = as_struct key raw v (λ tree.
      finish b.error_unused fs key tree (bind_fields fs b key tree (fields_or (zero_values fs) v)))
  assign (map_type t) b key raw v = assign_map (λ k r. assign t b k r (zero_value t)) key raw v
  assign map_of_other b key raw v = refuse_map key raw v
  assign (slice_type t) b key raw v =
      assign_slice (λ k r. assign t b k r (zero_value t)) key (slice_items b t raw) v
  assign any_type b key raw v = assign_any raw
  assign string_type b key raw v = assign_scalar b string_type key raw v
  assign bool_type b key raw v = assign_scalar b bool_type key raw v
  assign float_type b key raw v = assign_scalar b float_type key raw v
  assign duration_type b key raw v = assign_scalar b duration_type key raw v
  assign (int_type bits) b key raw v = assign_scalar b (int_type bits) key raw v
  assign (uint_type bits) b key raw v = assign_scalar b (uint_type bits) key raw v
  assign closed b key raw v = assign_scalar b closed key raw v

  pub bind_fields : FieldTypes → Binder → Text → Dict Raw → GoValues → FieldsBound GoValues
  bind_fields no_type b path tree vs = some (no_value, [], [])
  bind_fields (field_type f t fs) b path tree vs =
      both and_fields
        (perform (plan f t tree) path (spec f).name (head_or (zero_value t) vs)
          (λ key raw v. assign t b key raw v) (λ v. bind_embedded t b path tree v)
          (λ key v. bind_missing t b key v))
        (bind_fields fs b path tree (tail_or (zero_values fs) vs))

  pub bind_embedded : GoType → Binder → Text → Dict Raw → GoValue → Bound GoValue
  bind_embedded (struct_type fs) b path tree v =
      finish b.error_unused fs path tree (bind_fields fs b path tree (fields_or (zero_values fs) v))
  bind_embedded (pointer_type t) b path tree v =
      wrap pointer_value (bind_embedded t b path tree (target_or (zero_value t) v))
  bind_embedded t b path tree v = some (v, [])

  pub bind_missing : GoType → Binder → Text → GoValue → Bound GoValue
  bind_missing (struct_type fs) b key v =
      finish b.error_unused fs key [] (bind_fields fs b key [] (fields_or (zero_values fs) v))
  bind_missing t b key v = some (v, [])

-- `bindStruct`
unfoldable pub bind_struct : FieldTypes → Binder → Text → Dict Raw → GoValue → Bound GoValue
bind_struct fs b path tree v =
    finish b.error_unused fs path tree (bind_fields fs b path tree (fields_or (zero_values fs) v))

-- `Bind`: the destination is a pointer to a struct that is not nil; `refused` for any other.
pub data Answer : Type 0 where
  refused : Answer
  answer : Bound GoValue → Answer

unfoldable pub bind : Binder → Dict Raw → GoType → GoValue → Answer
bind b tree (pointer_type (struct_type fs)) (pointer_value v) = answer (bind_struct fs b [] tree v)
bind b tree t v = refused

-- ===== src/Bind/Assign/Whole.antt =====
-- internal/bind/bind.go: structs, embedded and missing ones, and the whole binding.
use consulx.Prelude.{List, [], some, Text, ◌≡◌}
use mathlib.Core.Path.{subst}
use consulx.Prelude.Dict.{Dict}
use consulx.Bind.{
  Raw, GoType, string_type, bool_type, float_type, duration_type, any_type, map_of_other, closed,
  int_type, uint_type, custom, pointer_type, map_type, slice_type, struct_type, FieldTypes, no_type,
  field_type, GoValue, GoValues, Error, Binder,
}
use consulx.Bind.Scalars.{scalar}
use consulx.Bind.Assign.{
  assign, bind_fields, bind_embedded, bind_missing, bind_struct, finish, perform, plan, head_or,
  tail_or, fields_or, target_or,
}
use consulx.Bind.Values.{assign_scalar, refuse_map, slice_items}
use consulx.Bind.Fields.{spec, zero_value, zero_values}
use consulx.Bind.Assign.Typed.{IsStruct, HasType, HasTypes, Holds, zero-HasType}
use consulx.Bind.Assign.Kept.{
  IsCustom-Holds, IsString-Holds, IsBool-Holds, IsFloat-Holds, IsDuration-Holds, IsInt-Holds,
  IsUint-Holds, IsAny-Holds, IsPointer-Holds, IsMap-Holds, IsSlice-Holds,
}
use consulx.Bind.Assign.Parts.{
  byte_values-HasType, slice_items-byte, anything, HoldsIn, perform-Holds, fields-Holds,
  head_or-Holds, tail_or-Holds, target_or-Holds, wrap-Holds, as_struct-Holds, IsStruct-Holds,
}

mutual
  unfolding HasType assign

  assign-Holds :
      (t : GoType) (b : Binder) (key : Text) (raw : Raw) (v : GoValue)
      → HasType t v
      → Holds (HasType t) (assign t b key raw v)
  assign-Holds string_type b key raw v h = IsString-Holds b key raw v h
  assign-Holds bool_type b key raw v h = IsBool-Holds b key raw v h
  assign-Holds float_type b key raw v h = IsFloat-Holds b key raw v h
  assign-Holds duration_type b key raw v h = IsDuration-Holds b key raw v h
  assign-Holds any_type b key raw v h = IsAny-Holds raw
  assign-Holds map_of_other b key raw v h = anything (refuse_map key raw v)
  assign-Holds closed b key raw v h = anything (assign_scalar b closed key raw v)
  assign-Holds (int_type bits) b key raw v h = IsInt-Holds b key raw v bits h
  assign-Holds (uint_type bits) b key raw v h = IsUint-Holds b key raw v bits h
  assign-Holds (custom id) b key raw v h = IsCustom-Holds b key raw v id (scalar b raw) h
  assign-Holds (pointer_type t) b key raw v h =
      IsPointer-Holds (HasType t) raw v (assign t b key raw (zero_value t)) h
        (assign-Holds t b key raw (zero_value t) (zero-HasType t))
  assign-Holds (map_type t) b key raw v h =
      IsMap-Holds (HasType t) (λ k r. assign t b k r (zero_value t))
        (λ k r. assign-Holds t b k r (zero_value t) (zero-HasType t)) key raw v h
  assign-Holds (slice_type t) b key raw v h =
      IsSlice-Holds (HasType t) (λ k r. assign t b k r (zero_value t))
        (λ k r. assign-Holds t b k r (zero_value t) (zero-HasType t)) key (slice_items b t raw) v h
        (λ s e. byte_values-HasType t s (slice_items-byte b t raw s e))
  assign-Holds (struct_type fs) b key raw v h =
      as_struct-Holds (IsStruct (HasTypes fs)) key raw v
        (λ tree.
          finish b.error_unused fs key tree
            (bind_fields fs b key tree (fields_or (zero_values fs) v)))
        h (λ tree. IsStruct-Holds fs b key tree v h (λ vs hv. fields-HasTypes fs b key tree vs hv))

  fields-HasTypes :
      (fs : FieldTypes) (b : Binder) (path : Text) (tree : Dict Raw) (vs : GoValues)
      → HasTypes fs vs
      → HoldsIn (HasTypes fs) (bind_fields fs b path tree vs)
  fields-HasTypes no_type b path tree vs h = tt
  fields-HasTypes (field_type f t fs) b path tree vs h =
      fields-Holds (HasType t) (HasTypes fs)
        (perform (plan f t tree) path (spec f).name (head_or (zero_value t) vs)
          (λ key raw v. assign t b key raw v) (λ v. bind_embedded t b path tree v)
          (λ key v. bind_missing t b key v))
        (bind_fields fs b path tree (tail_or (zero_values fs) vs))
        (perform-Holds (HasType t) (plan f t tree) path (spec f).name (head_or (zero_value t) vs)
          (λ key raw v. assign t b key raw v) (λ v. bind_embedded t b path tree v)
          (λ key v. bind_missing t b key v)
          (head_or-Holds (HasType t) (HasTypes fs) (zero_value t) vs h)
          (λ k r w hw. assign-Holds t b k r w hw) (λ w hw. embedded-Holds t b path tree w hw)
          (λ k w hw. missing-Holds t b k w hw))
        (fields-HasTypes fs b path tree (tail_or (zero_values fs) vs)
          (tail_or-Holds (HasType t) (HasTypes fs) (zero_values fs) vs h))

  embedded-Holds :
      (t : GoType) (b : Binder) (path : Text) (tree : Dict Raw) (v : GoValue)
      → HasType t v
      → Holds (HasType t) (bind_embedded t b path tree v)
  embedded-Holds (struct_type fs) b path tree v h =
      IsStruct-Holds fs b path tree v h (λ vs hv. fields-HasTypes fs b path tree vs hv)
  embedded-Holds (pointer_type t) b path tree v h =
      wrap-Holds (HasType t) (bind_embedded t b path tree (target_or (zero_value t) v)) (
        embedded-Holds t b path tree (target_or (zero_value t) v)
          (target_or-Holds (HasType t) (zero_value t) v (zero-HasType t) h))
  embedded-Holds string_type b path tree v h = h
  embedded-Holds bool_type b path tree v h = h
  embedded-Holds float_type b path tree v h = h
  embedded-Holds duration_type b path tree v h = h
  embedded-Holds any_type b path tree v h = h
  embedded-Holds map_of_other b path tree v h = h
  embedded-Holds closed b path tree v h = h
  embedded-Holds (int_type bits) b path tree v h = h
  embedded-Holds (uint_type bits) b path tree v h = h
  embedded-Holds (custom id) b path tree v h = h
  embedded-Holds (map_type t) b path tree v h = h
  embedded-Holds (slice_type t) b path tree v h = h

  missing-Holds :
      (t : GoType) (b : Binder) (key : Text) (v : GoValue)
      → HasType t v
      → Holds (HasType t) (bind_missing t b key v)
  missing-Holds (struct_type fs) b key v h =
      IsStruct-Holds fs b key [] v h (λ vs hv. fields-HasTypes fs b key [] vs hv)
  missing-Holds (pointer_type t) b key v h = h
  missing-Holds string_type b key v h = h
  missing-Holds bool_type b key v h = h
  missing-Holds float_type b key v h = h
  missing-Holds duration_type b key v h = h
  missing-Holds any_type b key v h = h
  missing-Holds map_of_other b key v h = h
  missing-Holds closed b key v h = h
  missing-Holds (int_type bits) b key v h = h
  missing-Holds (uint_type bits) b key v h = h
  missing-Holds (custom id) b key v h = h
  missing-Holds (map_type t) b key v h = h
  missing-Holds (slice_type t) b key v h = h

-- Whatever the tree holds, a binding that does not panic leaves a value of the destination's type, with
-- every integer within the bits of its type. The destination holds one before.
pub bind_struct-HasType :
    (fs : FieldTypes) (b : Binder) (path : Text) (tree : Dict Raw) (v w : GoValue)
    (errs : List Error)
    → HasType (struct_type fs) v
    → bind_struct fs b path tree v ≡ some (w, errs)
    → HasType (struct_type fs) w
unfolding HasType bind_struct
bind_struct-HasType fs b path tree v w errs h e =
    subst (Holds (IsStruct (HasTypes fs))) e
      (IsStruct-Holds fs b path tree v h (λ vs hv. fields-HasTypes fs b path tree vs hv))

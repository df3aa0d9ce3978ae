-- ===== src/Tests/Binding.antt =====
-- Bindings of concrete trees.
use consulx.Prelude.{
  true, false, [], ◌∷◌, none, some, Text, codes, text_eq, text_eq_iff, split, text_compare, ◌≡◌,
  refl, arith,
}
use consulx.Prelude.Dict.{Dict, lookup}
use consulx.Prelude.Int.{pos}
use consulx.Bind.{
  Raw, text, int, null, object, RawFields, no_fields, field, FieldInfo, string_type, int_type,
  any_type, map_type, slice_type, struct_type, FieldTypes, no_type, field_type, GoValue, value,
  no_value, string_value, int_value, slice_value, Binder, nil_value, struct_value,
}
use consulx.ServiceId.{to_lower}
use consulx.Bind.Keys.{same_key, find_key}
use consulx.Bind.Keys.Order.{find_key_same}
use consulx.Bind.Assign.{assign, bind_struct, bind_fields, finish, perform, plan, unknown_keys}
use consulx.Bind.Values.{assign_scalar, assign_slice, slice_items}
use consulx.Bind.Fields.{spec, join, zero_value}
use consulx.Bind.Scalars.{scalar, set_scalar, parse_int}
use consulx.Prelude.Strconv.{atoi}
use consulx.Prelude.Trim.{trim_space}
use consulx.Bind.Assign.Typed.{HasType, zero-HasType}
use consulx.Bind.Assign.Whole.{bind_struct-HasType}
use consulx.Bind.Assign.Panics.{assign_map_null}

abbrev binder0 : Binder
binder0 = record {
  error_unused = true;
  parse_duration = λ t. none;
  parse_float = λ t. none;
  format_float = λ n. [];
  unmarshal = λ id n t. (n, true);
}

abbrev plain : Text → FieldInfo
plain name = record { name = name; exported = true; anonymous = false; tag = none; default = none }

-- `struct { MaxConns int8; Hosts []string }`
abbrev pool : FieldTypes
pool =
    field_type (plain (codes "MaxConns")) (int_type 8)
      (field_type (plain (codes "Hosts")) (slice_type string_type) no_type)

abbrev pool_tree : Dict Raw
pool_tree = (codes "max-conns", text (codes "120")) ∷ (codes "hosts", text (codes "a, b")) ∷ []

abbrev two : Dict Raw
two = (codes "max-conns", int (pos 1)) ∷ (codes "max_conns", int (pos 2)) ∷ []

abbrev two' : Dict Raw
two' = (codes "max_conns", int (pos 2)) ∷ (codes "max-conns", int (pos 1)) ∷ []

two_same : (k : Text) → lookup k two ≡ lookup k two'
unfolding lookup text_eq
two_same k = ground (arith, text_eq_iff (codes "max-conns") k, text_eq_iff (codes "max_conns") k)

find_key_same_example : find_key (codes "MaxConns") two ≡ find_key (codes "MaxConns") two'
find_key_same_example = find_key_same two two' two_same (codes "MaxConns")

abbrev with_null : RawFields
with_null = field (codes "a") (text (codes "1")) (field (codes "b") null no_fields)

assign_map_null_example :
    assign (map_type any_type) binder0 (codes "extra") (object with_null) nil_value ≡ none
unfolding lookup text_eq
assign_map_null_example =
    assign_map_null binder0 (codes "extra") (codes "b") with_null nil_value refl

abbrev pool_value : GoValue
pool_value = struct_value (
    value (int_value (pos 120)) (
      value
        (slice_value (value (string_value (codes "a")) (value (string_value (codes "b")) no_value)))
        no_value))

pool-bound :
    bind_struct pool binder0 [] pool_tree (zero_value (struct_type pool)) ≡ some (pool_value, [])
unfolding bind_struct finish bind_fields perform plan spec find_key same_key lookup text_eq join
    assign_scalar scalar set_scalar parse_int atoi trim_space assign_slice slice_items split
    unknown_keys to_lower text_compare
pool-bound = refl

bind_struct-HasType_example : HasType (struct_type pool) pool_value
bind_struct-HasType_example =
    bind_struct-HasType pool binder0 [] pool_tree (zero_value (struct_type pool)) pool_value []
      (zero-HasType (struct_type pool)) pool-bound

-- ===== src/Bind/Fields.antt =====
-- internal/bind/bind.go: what the tag of a field says, which keys a struct knows, and the zero values.
use consulx.Prelude.{
  Bool, true, false, ◌&&◌, ◌||◌, [], ◌∷◌, ◌++◌, Option, none, some, Text, text_eq, codes,
  if◌then◌else◌, is_empty, any_of, split,
}
use consulx.Prelude.Trim.{trim_space}
use consulx.Prelude.Cut.{cut_char}
use consulx.Prelude.Int.{pos}
use consulx.Bind.{
  FieldInfo, GoType, string_type, bool_type, float_type, duration_type, any_type, map_of_other,
  closed, int_type, uint_type, custom, pointer_type, map_type, slice_type, struct_type, FieldTypes,
  no_type, field_type, GoValue, string_value, bool_value, int_value, uint_value, float_value,
  duration_value, custom_value, nil_value, struct_value, GoValues, no_value, value,
}
use consulx.Bind.Keys.{same_key}

unfoldable pub join : Text → Text → Text
join prefix key = if is_empty prefix then key else prefix ++ (b'/' ∷ key)

pub record FieldSpec : Type 0 where
  pub name : Text
  pub required : Bool
  pub skip : Bool

-- The name and the options of a tag.
abbrev pub tag_parts : Text → Text × Text
tag_parts tag = elim (cut_char b',' tag) [ none ↦ (tag, []) | some parts ↦ parts ]

tagged : Text → Text × Text → FieldSpec
tagged field_name (name, rest) =
    if text_eq name (codes "-")
    then record { name = []; required = false; skip = true }
    else record {
      name = if is_empty name then field_name else name;
      required = any_of (λ opt. text_eq (trim_space opt) (codes "required")) (split b',' rest);
      skip = false;
    }

-- `spec`
unfoldable pub spec : FieldInfo → FieldSpec
unfolding tagged
spec f = elim f.tag [
  | none ↦ record { name = f.name; required = false; skip = false }
  | some tag ↦ tagged f.name (tag_parts tag)
]

-- `indirectType`, where it leads to a struct.
unfoldable pub embedded_fields : GoType → Option FieldTypes
embedded_fields (struct_type fs) = some fs
embedded_fields (pointer_type t) = embedded_fields t
embedded_fields t = none

field_name : FieldInfo → Text
field_name f = elim f.tag [
  | none ↦ f.name
  | some tag ↦ if is_empty (tag_parts tag).0 then f.name else (tag_parts tag).0
]

unfoldable mutual
  unfolding field_name

  -- `matchesAnyField`
  pub matches_any_field : FieldTypes → Text → Bool
  matches_any_field no_type key = false
  matches_any_field (field_type f t fs) key =
      let inner = f.anonymous && matches_embedded t key in
      let here = text_eq (field_name f) key || same_key (field_name f) key in
      inner || (here || matches_any_field fs key)

  pub matches_embedded : GoType → Text → Bool
  matches_embedded (struct_type fs) key = matches_any_field fs key
  matches_embedded (pointer_type t) key = matches_embedded t key
  matches_embedded t key = false

-- The zero value of a type.
unfoldable mutual
  pub zero_value : GoType → GoValue
  zero_value string_type = string_value []
  zero_value bool_type = bool_value false
  zero_value (int_type bits) = int_value (pos 0)
  zero_value (uint_type bits) = uint_value 0
  zero_value float_type = float_value 0
  zero_value duration_type = duration_value (pos 0)
  zero_value any_type = nil_value
  zero_value map_of_other = nil_value
  zero_value closed = nil_value
  zero_value (custom id) = custom_value 0
  zero_value (pointer_type t) = nil_value
  zero_value (map_type t) = nil_value
  zero_value (slice_type t) = nil_value
  zero_value (struct_type fs) = struct_value (zero_values fs)

  pub zero_values : FieldTypes → GoValues
  zero_values no_type = no_value
  zero_values (field_type f t fs) = value (zero_value t) (zero_values fs)

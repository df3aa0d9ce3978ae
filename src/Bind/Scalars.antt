-- ===== src/Bind/Scalars.antt =====
-- internal/bind/bind.go: a leaf as text, and the text as a value of a basic type.
use consulx.Prelude.{
  ℕ, suc, ◌+◌, ◌-◌, ◌*◌, ◌^◌, Bool, true, false, ◌&&◌, [], ◌∷◌, Option, none, some, Text, codes,
  ltb, leb, if◌then◌else◌, is_empty,
}
use consulx.Prelude.Trim.{trim_space}
use consulx.Prelude.Strconv.{parse_bool, atoi}
use consulx.Prelude.Decimal.{itoa}
use consulx.Prelude.Int.{ℤ, pos, negsuc}
use consulx.Bind.{
  Raw, text, bytes, boolean, int, uint, float, null, list, object, other, GoType, string_type,
  bool_type, float_type, duration_type, any_type, map_of_other, closed, int_type, uint_type, custom,
  pointer_type, map_type, slice_type, struct_type, GoValue, string_value, bool_value, int_value,
  uint_value, float_value, duration_value, Problem, bad_duration, bad_boolean, bad_integer,
  bad_unsigned, bad_number, unsupported, Binder,
}

format_int : ℤ → Text
format_int (pos n) = itoa n
format_int (negsuc n) = b'-' ∷ itoa (suc n)

format_bool : Bool → Text
format_bool true = codes "true"
format_bool false = codes "false"

-- `scalar`
unfoldable pub scalar : Binder → Raw → Option Text
unfolding format_int format_bool
scalar b (text t) = some t
scalar b (bytes t) = some t
scalar b (boolean x) = some (format_bool x)
scalar b (int z) = some (format_int z)
scalar b (uint n) = some (itoa n)
scalar b (float x) = some (b.format_float x)
scalar b null = some []
scalar b (list rs) = none
scalar b (object fs) = none
scalar b other = none

-- Whether an integer of that many bits holds the number.
abbrev pub fits_int : ℕ → ℤ → Bool
fits_int bits (pos n) = ltb n (2 ^ (bits - 1))
fits_int bits (negsuc n) = ltb n (2 ^ (bits - 1))

-- `strconv.ParseInt` in base 10.
unfoldable pub parse_int : ℕ → Text → Option ℤ
parse_int bits t = if (atoi t).1 && fits_int bits (atoi t).0 then some (atoi t).0 else none

-- The digits of `strconv.ParseUint`; `none` where one is none, or where the number leaves the bits.
unfoldable pub uint_digits : ℕ → ℕ → Text → Option ℕ
uint_digits limit v [] = some v
uint_digits limit v (c ∷ cs) =
    let v' = v * 10 + (c - 48) in
    let rest = uint_digits limit v' cs in
    if leb 48 c && leb c 57 && ltb v' limit then rest else none

unfoldable pub parse_uint : ℕ → Text → Option ℕ
unfolding uint_digits
parse_uint bits t = if is_empty t then none else uint_digits (2 ^ bits) 0 t

-- A value or the error, as `setScalar` sets it.
pub data Set : Type 0 where
  is_set : GoValue → Set
  fails : Problem → Set

abbrev pub set_or {ℓ} : {A : Type ℓ} → (A → GoValue) → Problem → Option A → Set
set_or f p none = fails p
set_or f p (some a) = is_set (f a)

-- `setScalar`
unfoldable pub set_scalar : Binder → GoType → Text → Set
set_scalar b duration_type s = set_or duration_value bad_duration (b.parse_duration (trim_space s))
set_scalar b string_type s = is_set (string_value (trim_space s))
set_scalar b bool_type s = set_or bool_value bad_boolean (parse_bool (trim_space s))
set_scalar b (int_type bits) s = set_or int_value bad_integer (parse_int bits (trim_space s))
set_scalar b (uint_type bits) s = set_or uint_value bad_unsigned (parse_uint bits (trim_space s))
set_scalar b float_type s = set_or float_value bad_number (b.parse_float (trim_space s))
set_scalar b any_type s = fails unsupported
set_scalar b map_of_other s = fails unsupported
set_scalar b closed s = fails unsupported
set_scalar b (custom id) s = fails unsupported
set_scalar b (pointer_type t) s = fails unsupported
set_scalar b (map_type t) s = fails unsupported
set_scalar b (slice_type t) s = fails unsupported
set_scalar b (struct_type fs) s = fails unsupported

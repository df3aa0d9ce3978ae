-- ===== src/Bind/Assign/Typed.antt =====
-- internal/bind/bind.go: a binding keeps every value within the type of its destination.
use consulx.Prelude.{
  ℕ, zero, suc, ◌+◌, ◌-◌, ◌*◌, ◌^◌, ◌<◌, true, [], ◌∷◌, Option, none, some, Text, ◌≡◌, refl, arith,
}
use consulx.Prelude.Int.{ℤ}
use consulx.Bind.{
  GoType, string_type, bool_type, float_type, duration_type, any_type, map_of_other, closed,
  int_type, uint_type, custom, pointer_type, map_type, slice_type, struct_type, FieldTypes, no_type,
  field_type, GoValue, string_value, bool_value, int_value, uint_value, float_value, duration_value,
  custom_value, any_value, nil_value, pointer_value, map_value, slice_value, struct_value, GoValues,
  no_value, value, GoEntries, no_entry, entry, Problem, Bound, Binder,
}
use consulx.Bind.Scalars.{
  set_scalar, Set, is_set, fails, set_or, fits_int, parse_int, parse_uint, uint_digits,
}
use consulx.Bind.Values.{scalar_set, set_or_keep}
use consulx.Bind.Fields.{zero_value, zero_values}

abbrev pub IsString : GoValue → Type 0
IsString (string_value t) = Unit
IsString _ = ⊥

abbrev pub IsBool : GoValue → Type 0
IsBool (bool_value x) = Unit
IsBool _ = ⊥

abbrev pub IsFloat : GoValue → Type 0
IsFloat (float_value x) = Unit
IsFloat _ = ⊥

abbrev pub IsDuration : GoValue → Type 0
IsDuration (duration_value z) = Unit
IsDuration _ = ⊥

abbrev pub IsCustom : GoValue → Type 0
IsCustom (custom_value n) = Unit
IsCustom _ = ⊥

abbrev pub IsAny : GoValue → Type 0
IsAny (any_value r) = Unit
IsAny nil_value = Unit
IsAny _ = ⊥

-- The value fits into the bits of the type.
abbrev pub IsInt : ℕ → GoValue → Type 0
IsInt bits (int_value z) = fits_int bits z ≡ true
IsInt bits _ = ⊥

abbrev pub IsUint : ℕ → GoValue → Type 0
IsUint bits (uint_value n) = n < 2 ^ bits
IsUint bits _ = ⊥

abbrev pub IsPointer : (GoValue → Type 0) → GoValue → Type 0
IsPointer P nil_value = Unit
IsPointer P (pointer_value w) = P w
IsPointer P _ = ⊥

abbrev pub AllEntries : (GoValue → Type 0) → GoEntries → Type 0
AllEntries P no_entry = Unit
AllEntries P (entry k v es) = P v × AllEntries P es

abbrev pub IsMap : (GoValue → Type 0) → GoValue → Type 0
IsMap P nil_value = Unit
IsMap P (map_value es) = AllEntries P es
IsMap P _ = ⊥

abbrev pub AllValues : (GoValue → Type 0) → GoValues → Type 0
AllValues P no_value = Unit
AllValues P (value v vs) = P v × AllValues P vs

abbrev pub IsSlice : (GoValue → Type 0) → GoValue → Type 0
IsSlice P nil_value = Unit
IsSlice P (slice_value vs) = AllValues P vs
IsSlice P _ = ⊥

abbrev pub IsStruct : (GoValues → Type 0) → GoValue → Type 0
IsStruct P (struct_value vs) = P vs
IsStruct P _ = ⊥

abbrev pub IsNone : GoValues → Type 0
IsNone no_value = Unit
IsNone (value v vs) = ⊥

abbrev pub IsCons : (GoValue → Type 0) → (GoValues → Type 0) → GoValues → Type 0
IsCons P Q no_value = ⊥
IsCons P Q (value v vs) = P v × Q vs

-- The value is one of the type. Nothing is asked of the types that the binder never writes.
unfoldable mutual
  pub HasType : GoType → GoValue → Type 0
  HasType string_type v = IsString v
  HasType bool_type v = IsBool v
  HasType float_type v = IsFloat v
  HasType duration_type v = IsDuration v
  HasType any_type v = IsAny v
  HasType map_of_other v = Unit
  HasType closed v = Unit
  HasType (int_type bits) v = IsInt bits v
  HasType (uint_type bits) v = IsUint bits v
  HasType (custom id) v = IsCustom v
  HasType (pointer_type t) v = IsPointer (HasType t) v
  HasType (map_type t) v = IsMap (HasType t) v
  HasType (slice_type t) v = IsSlice (HasType t) v
  HasType (struct_type fs) v = IsStruct (HasTypes fs) v

  pub HasTypes : FieldTypes → GoValues → Type 0
  HasTypes no_type vs = IsNone vs
  HasTypes (field_type f t fs) vs = IsCons (HasType t) (HasTypes fs) vs

-- What holds of the value that a call answers, if it does not panic.
abbrev pub Holds : {A : Type 0} → (A → Type 0) → Bound A → Type 0
Holds P none = Unit
Holds P (some (a, es)) = P a

pub pow_pos : (k : ℕ) → 0 < 2 ^ k
pow_pos zero = omega arith
pow_pos (suc k) = omega (arith, pow_pos k)

mutual
  unfolding HasType zero_value

  pub zero-HasType : (t : GoType) → HasType t (zero_value t)
  zero-HasType string_type = tt
  zero-HasType bool_type = tt
  zero-HasType float_type = tt
  zero-HasType duration_type = tt
  zero-HasType any_type = tt
  zero-HasType map_of_other = tt
  zero-HasType closed = tt
  zero-HasType (int_type bits) = ground (arith, pow_pos (bits - 1))
  zero-HasType (uint_type bits) = pow_pos bits
  zero-HasType (custom id) = tt
  zero-HasType (pointer_type t) = tt
  zero-HasType (map_type t) = tt
  zero-HasType (slice_type t) = tt
  zero-HasType (struct_type fs) = zeros-HasTypes fs

  pub zeros-HasTypes : (fs : FieldTypes) → HasTypes fs (zero_values fs)
  zeros-HasTypes no_type = tt
  zeros-HasTypes (field_type f t fs) = (zero-HasType t, zeros-HasTypes fs)

-- Basic types.
abbrev pub SetHolds : (GoValue → Type 0) → Set → Type 0
SetHolds P (is_set w) = P w
SetHolds P (fails p) = Unit

pub set_or-Holds :
    {A : Type 0} (P : GoValue → Type 0) (f : A → GoValue) (p : Problem) (o : Option A)
    → ((a : A) → o ≡ some a → P (f a))
    → SetHolds P (set_or f p o)
set_or-Holds P f p none h = tt
set_or-Holds P f p (some a) h = h a refl

pub scalar_set-Holds :
    (P : GoValue → Type 0) (b : Binder) (t : GoType) (key : Text) (v : GoValue) (s : Option Text)
    → P v
    → ((x : Text) → SetHolds P (set_scalar b t x))
    → Holds P (scalar_set b t key v s)
unfolding scalar_set set_or_keep
scalar_set-Holds P b t key v none h k = h
scalar_set-Holds P b t key v (some x) h k = at (set_scalar b t x) (k x)
  where
    at : (r : Set) → SetHolds P r → Holds P (set_or_keep key v r)
    at (is_set w) hw = hw
    at (fails p) hw = h

pub parse_int_fits :
    (bits : ℕ) (t : Text) (z : ℤ) → parse_int bits t ≡ some z → fits_int bits z ≡ true
unfolding parse_int
parse_int_fits bits t z h = ground (arith, h)

uint_digits-lt :
    (limit v : ℕ) (t : Text) (n : ℕ) → v < limit → uint_digits limit v t ≡ some n → n < limit
unfolding uint_digits
uint_digits-lt limit v [] n h e = ground (arith, h, e)
uint_digits-lt limit v (c ∷ cs) n h e =
    ground (arith, e, uint_digits-lt limit (v * 10 + (c - 48)) cs n)

pub parse_uint_fits : (bits : ℕ) (t : Text) (n : ℕ) → parse_uint bits t ≡ some n → n < 2 ^ bits
unfolding parse_uint
parse_uint_fits bits t n h = ground (arith, h, uint_digits-lt (2 ^ bits) 0 t n, pow_pos bits)

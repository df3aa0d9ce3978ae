-- ===== src/Bind/Assign/Kept.antt =====
-- internal/bind/bind.go: every call of the binder keeps the value within its type.
use consulx.Prelude.{
  ℕ, suc, Bool, true, false, List, [], ◌∷◌, ◌++◌, Option, none, some, Text, ◌≡◌, refl,
}
use consulx.Prelude.Trim.{trim_space}
use consulx.Prelude.Strconv.{parse_bool}
use consulx.Prelude.Dict.{Dict}
use consulx.Prelude.Decimal.{itoa}
use consulx.Bind.{
  Raw, text, bytes, boolean, int, uint, float, null, list, object, other, dict_of, string_type,
  bool_type, float_type, duration_type, int_type, uint_type, GoValue, bool_value, int_value,
  uint_value, float_value, duration_value, map_value, slice_value, GoValues, GoEntries, Problem,
  Bound, Binder,
}
use consulx.Bind.Scalars.{scalar, set_scalar, parse_int, parse_uint}
use consulx.Bind.Values.{
  both, wrap, assign_custom, assign_scalar, assign_any, assign_pointer, stored, assign_entries,
  put_entry, assign_map, assign_slice, assign_items, prepend, byte_values, Items, items, raw_bytes,
  no_list, unmarshalled, state_of,
}
use consulx.Bind.Fields.{join}
use consulx.Bind.Assign.Typed.{
  IsString, IsBool, IsFloat, IsDuration, IsCustom, IsAny, IsInt, IsUint, IsPointer, AllEntries,
  IsMap, AllValues, IsSlice, Holds, set_or-Holds, scalar_set-Holds, parse_int_fits, parse_uint_fits,
}

module _ (b : Binder) (key : Text) (raw : Raw) (v : GoValue) where
  pub IsCustom-Holds :
      (id : ℕ) (s : Option Text) → IsCustom v → Holds IsCustom (assign_custom b key id s v)
  unfolding assign_custom
  IsCustom-Holds id none h = h
  IsCustom-Holds id (some s) h = at (b.unmarshal id (state_of v) s)
    where
      at : (r : ℕ × Bool) → Holds IsCustom (unmarshalled key r)
      at (n, true) = tt
      at (n, false) = tt

  pub IsString-Holds : IsString v → Holds IsString (assign_scalar b string_type key raw v)
  unfolding assign_scalar set_scalar
  IsString-Holds h = scalar_set-Holds IsString b string_type key v (scalar b raw) h (λ x. tt)

  pub IsBool-Holds : IsBool v → Holds IsBool (assign_scalar b bool_type key raw v)
  unfolding assign_scalar set_scalar
  IsBool-Holds h = scalar_set-Holds IsBool b bool_type key v (scalar b raw) h (λ x.
      set_or-Holds IsBool bool_value Problem.bad_boolean (parse_bool (trim_space x)) (λ a e. tt))

  pub IsFloat-Holds : IsFloat v → Holds IsFloat (assign_scalar b float_type key raw v)
  unfolding assign_scalar set_scalar
  IsFloat-Holds h = scalar_set-Holds IsFloat b float_type key v (scalar b raw) h (λ x.
      set_or-Holds IsFloat float_value Problem.bad_number (b.parse_float (trim_space x))
        (λ a e. tt))

  pub IsDuration-Holds : IsDuration v → Holds IsDuration (assign_scalar b duration_type key raw v)
  unfolding assign_scalar set_scalar
  IsDuration-Holds h = scalar_set-Holds IsDuration b duration_type key v (scalar b raw) h (λ x.
      set_or-Holds IsDuration duration_value Problem.bad_duration (b.parse_duration (trim_space x))
        (λ a e. tt))

  pub IsInt-Holds :
      (bits : ℕ) → IsInt bits v → Holds (IsInt bits) (assign_scalar b (int_type bits) key raw v)
  unfolding assign_scalar set_scalar
  IsInt-Holds bits h = scalar_set-Holds (IsInt bits) b (int_type bits) key v (scalar b raw) h (λ x.
      set_or-Holds (IsInt bits) int_value Problem.bad_integer (parse_int bits (trim_space x))
        (λ a e. parse_int_fits bits (trim_space x) a e))

  pub IsUint-Holds :
      (bits : ℕ) → IsUint bits v → Holds (IsUint bits) (assign_scalar b (uint_type bits) key raw v)
  unfolding assign_scalar set_scalar
  IsUint-Holds bits h =
      scalar_set-Holds (IsUint bits) b (uint_type bits) key v (scalar b raw) h (λ x.
        set_or-Holds (IsUint bits) uint_value Problem.bad_unsigned (parse_uint bits (trim_space x))
          (λ a e. parse_uint_fits bits (trim_space x) a e))

pub IsAny-Holds : (raw : Raw) → Holds IsAny (assign_any raw)
unfolding assign_any
IsAny-Holds null = tt
IsAny-Holds (text t) = tt
IsAny-Holds (bytes t) = tt
IsAny-Holds (boolean x) = tt
IsAny-Holds (int z) = tt
IsAny-Holds (uint n) = tt
IsAny-Holds (float x) = tt
IsAny-Holds (list rs) = tt
IsAny-Holds (object fs) = tt
IsAny-Holds other = tt

module _ (P : GoValue → Type 0) where
  stored-Holds :
      (v : GoValue) (target : Bound GoValue)
      → IsPointer P v
      → Holds P target
      → Holds (IsPointer P) (stored v target)
  unfolding stored
  stored-Holds v none h k = tt
  stored-Holds v (some (w, [])) h k = k
  stored-Holds v (some (w, e ∷ es)) h k = h

  pub IsPointer-Holds :
      (raw : Raw) (v : GoValue) (target : Bound GoValue)
      → IsPointer P v
      → Holds P target
      → Holds (IsPointer P) (assign_pointer raw v target)
  unfolding assign_pointer
  IsPointer-Holds null v target h k = tt
  IsPointer-Holds (text t) v target h k = stored-Holds v target h k
  IsPointer-Holds (bytes t) v target h k = stored-Holds v target h k
  IsPointer-Holds (boolean x) v target h k = stored-Holds v target h k
  IsPointer-Holds (int z) v target h k = stored-Holds v target h k
  IsPointer-Holds (uint n) v target h k = stored-Holds v target h k
  IsPointer-Holds (float x) v target h k = stored-Holds v target h k
  IsPointer-Holds (list rs) v target h k = stored-Holds v target h k
  IsPointer-Holds (object fs) v target h k = stored-Holds v target h k
  IsPointer-Holds other v target h k = stored-Holds v target h k

  both-entry :
      (k : Text) (one : Bound GoValue) (more : Bound GoEntries)
      → Holds P one
      → Holds (AllEntries P) more
      → Holds (AllEntries P) (both (put_entry k) one more)
  unfolding put_entry
  both-entry k none more h i = tt
  both-entry k (some (w, es)) none h i = tt
  both-entry k (some (w, [])) (some (entries, errs)) h i = (h, i)
  both-entry k (some (w, e ∷ es)) (some (entries, errs)) h i = i

  both-value :
      (one : Bound GoValue) (more : Bound GoValues)
      → Holds P one
      → Holds (AllValues P) more
      → Holds (AllValues P) (both prepend one more)
  unfolding prepend
  both-value none more h i = tt
  both-value (some (w, es)) none h i = tt
  both-value (some (w, es)) (some (ws, errs)) h i = (h, i)

  module _ (element : Text → Raw → Bound GoValue)
      (typed : (k : Text) (r : Raw) → Holds P (element k r)) where
    entries-Holds :
        (key : Text) (tree : Dict Raw) → Holds (AllEntries P) (assign_entries element key tree)
    unfolding assign_entries
    entries-Holds key [] = tt
    entries-Holds key ((k, r) ∷ tree) =
        both-entry k (element (join key k) r) (assign_entries element key tree)
          (typed (join key k) r) (entries-Holds key tree)

    items-Holds :
        (key : Text) (i : ℕ) (rs : List Raw) → Holds (AllValues P) (assign_items element key i rs)
    unfolding assign_items
    items-Holds key i [] = tt
    items-Holds key i (r ∷ rs) =
        both-value (element (key ++ (b'/' ∷ itoa i)) r) (assign_items element key (suc i) rs)
          (typed (key ++ (b'/' ∷ itoa i)) r) (items-Holds key (suc i) rs)

    pub IsMap-Holds :
        (key : Text) (raw : Raw) (v : GoValue)
        → IsMap P v
        → Holds (IsMap P) (assign_map element key raw v)
    unfolding assign_map
    IsMap-Holds key (object fs) v h =
        at (assign_entries element key (dict_of fs)) (entries-Holds key (dict_of fs))
      where
        at : (r : Bound GoEntries) → Holds (AllEntries P) r → Holds (IsMap P) (wrap map_value r)
        at none i = tt
        at (some (es, errs)) i = i
    IsMap-Holds key null v h = h
    IsMap-Holds key (text t) v h = h
    IsMap-Holds key (bytes t) v h = h
    IsMap-Holds key (boolean x) v h = h
    IsMap-Holds key (int z) v h = h
    IsMap-Holds key (uint n) v h = h
    IsMap-Holds key (float x) v h = h
    IsMap-Holds key (list rs) v h = h
    IsMap-Holds key other v h = h

    pub IsSlice-Holds :
        (key : Text) (its : Items) (v : GoValue)
        → IsSlice P v
        → ((s : Text) → its ≡ raw_bytes s → AllValues P (byte_values s))
        → Holds (IsSlice P) (assign_slice element key its v)
    unfolding assign_slice
    IsSlice-Holds key (items rs) v h k = at (assign_items element key 0 rs) (items-Holds key 0 rs)
      where
        at : (r : Bound GoValues) → Holds (AllValues P) r → Holds (IsSlice P) (wrap slice_value r)
        at none i = tt
        at (some (es, errs)) i = i
    IsSlice-Holds key (raw_bytes s) v h k = k s refl
    IsSlice-Holds key (no_list p) v h k = h

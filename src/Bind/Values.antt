-- ===== src/Bind/Values.antt =====
-- internal/bind/bind.go: one value of a scalar, a pointer, a map or a list, over the binding of what it
-- holds.
use consulx.Prelude.{
  ℕ, suc, leb, ◌%◌, Bool, true, false, List, [], ◌∷◌, ◌++◌, map, Option, none, some, Text, ◌==◌,
  if◌then◌else◌, is_empty, split,
}
use consulx.Prelude.Trim.{trim_space}
use consulx.Prelude.Strconv.{atoi}
use consulx.Prelude.Decimal.{itoa}
use consulx.Prelude.Dict.{Dict, lookup}
use consulx.Prelude.Int.{ℤ, pos, negsuc}
use consulx.Prelude.Sort.{sort}
use consulx.Bind.{
  Raw, text, null, list, object, items_of, dict_of, GoType, uint_type, GoValue, uint_value,
  custom_value, any_value, nil_value, pointer_value, map_value, slice_value, GoValues, no_value,
  value, GoEntries, no_entry, entry, Problem, expected_scalar, expected_object, expected_list,
  string_keys_only, not_numeric, bad_text, Error, Bound, Binder,
}
use consulx.Bind.Keys.{or_null}
use consulx.Bind.Scalars.{scalar, set_scalar, Set, is_set, fails}
use consulx.Bind.Fields.{join}

-- The state of a custom value.
unfoldable pub state_of : GoValue → ℕ
state_of (custom_value n) = n
state_of v = 0

unfoldable pub unmarshalled : Text → ℕ × Bool → Bound GoValue
unmarshalled key (n, true) = some (custom_value n, [])
unmarshalled key (n, false) = some (custom_value n, (key, bad_text) ∷ [])

unfoldable pub assign_custom : Binder → Text → ℕ → Option Text → GoValue → Bound GoValue
unfolding unmarshalled state_of
assign_custom b key id none v = some (v, (key, expected_scalar) ∷ [])
assign_custom b key id (some s) v = unmarshalled key (b.unmarshal id (state_of v) s)

unfoldable pub set_or_keep : Text → GoValue → Set → Bound GoValue
set_or_keep key v (is_set w) = some (w, [])
set_or_keep key v (fails p) = some (v, (key, p) ∷ [])

unfoldable pub scalar_set : Binder → GoType → Text → GoValue → Option Text → Bound GoValue
unfolding set_or_keep
scalar_set b t key v none = some (v, (key, expected_scalar) ∷ [])
scalar_set b t key v (some s) = set_or_keep key v (set_scalar b t s)

-- The end of `assign`, for a type of a basic kind and those that have no conversion.
unfoldable pub assign_scalar : Binder → GoType → Text → Raw → GoValue → Bound GoValue
unfolding scalar_set
assign_scalar b t key raw v = scalar_set b t key v (scalar b raw)

-- `v.Set(reflect.ValueOf(raw))` for an empty interface. The reflect.Value of nil is the zero Value,
-- which Set refuses by a panic.
unfoldable pub assign_any : Raw → Bound GoValue
assign_any null = none
assign_any raw = some (any_value raw, [])

unfoldable pub stored : GoValue → Bound GoValue → Bound GoValue
stored v none = none
stored v (some (w, [])) = some (pointer_value w, [])
stored v (some (w, e ∷ es)) = some (v, e ∷ es)

-- A pointer's target is a new value, which is stored if it has no error.
unfoldable pub assign_pointer : Raw → GoValue → Bound GoValue → Bound GoValue
unfolding stored
assign_pointer null v target = some (nil_value, [])
assign_pointer raw v target = stored v target

unfoldable pub put_entry :
    Text → GoValue × List Error → GoEntries × List Error → GoEntries × List Error
put_entry k (w, []) (entries, errs) = (entry k w entries, errs)
put_entry k (w, e ∷ es) (entries, errs) = (entries, (e ∷ es) ++ errs)

-- Two parts, unless one of them panics.
abbrev pub both {ℓ} : {A B C : Type ℓ} → (A → B → C) → Option A → Option B → Option C
both f none b = none
both f (some a) none = none
both f (some a) (some b) = some (f a b)

-- The loop of `assignMap`, given how one element is assigned to.
unfoldable pub assign_entries : (Text → Raw → Bound GoValue) → Text → Dict Raw → Bound GoEntries
unfolding put_entry
assign_entries element key [] = some (no_entry, [])
assign_entries element key ((k, r) ∷ tree) =
    both (put_entry k) (element (join key k) r) (assign_entries element key tree)

abbrev pub wrap {ℓ} : {A B : Type ℓ} → (A → B) → Option (A × List Error) → Option (B × List Error)
wrap f none = none
wrap f (some (a, es)) = some (f a, es)

unfoldable pub assign_map : (Text → Raw → Bound GoValue) → Text → Raw → GoValue → Bound GoValue
assign_map element key (object fs) v = wrap map_value (assign_entries element key (dict_of fs))
assign_map element key raw v = some (v, (key, expected_object) ∷ [])

unfoldable pub refuse_map : Text → Raw → GoValue → Bound GoValue
refuse_map key (object fs) v = some (v, (key, string_keys_only) ∷ [])
refuse_map key raw v = some (v, (key, expected_object) ∷ [])

-- The indexes of a folder, or the first key that is none.
pub data Indexes : Type 0 where
  all_indexes : List ℕ → Indexes
  not_index : Text → Indexes

index_of : ℤ × Bool → Option ℕ
index_of (pos n, true) = some n
index_of (negsuc n, ok) = none
index_of (z, false) = none

with_index : Text → Option ℕ → Indexes → Indexes
with_index k none rest = not_index k
with_index k (some n) (all_indexes ns) = all_indexes (n ∷ ns)
with_index k (some n) (not_index j) = not_index j

unfoldable pub indexes : Dict Raw → Indexes
unfolding with_index index_of
indexes [] = all_indexes []
indexes ((k, r) ∷ tree) = with_index k (index_of (atoi k)) (indexes tree)

-- What `assignSlice` makes elements of.
pub data Items : Type 0 where
  items : List Raw → Items
  raw_bytes : Text → Items
  no_list : Problem → Items

abbrev pub is_byte : GoType → Bool
is_byte (uint_type bits) = bits == 8
is_byte t = false

-- `r[strconv.Itoa(n)]` for the sorted indexes.
unfoldable pub folder_items : Dict Raw → Indexes → Items
folder_items tree (not_index k) = no_list (not_numeric k)
folder_items tree (all_indexes ns) = items (map (λ n. or_null (lookup (itoa n) tree)) (sort leb ns))

unfoldable pub separated : GoType → Option Text → Items
separated t none = no_list expected_list
separated t (some s) =
    if is_byte t
    then raw_bytes s
    else if is_empty (trim_space s)
    then items []
    else items (map (λ part. text (trim_space part)) (split b',' s))

unfoldable pub slice_items : Binder → GoType → Raw → Items
unfolding folder_items separated indexes
slice_items b t (list rs) = items (items_of rs)
slice_items b t (object fs) = folder_items (dict_of fs) (indexes (dict_of fs))
slice_items b t raw = separated t (scalar b raw)

unfoldable pub prepend : GoValue × List Error → GoValues × List Error → GoValues × List Error
prepend (w, es) (ws, more) = (value w ws, es ++ more)

-- The last loop of `assignSlice`.
unfoldable pub assign_items : (Text → Raw → Bound GoValue) → Text → ℕ → List Raw → Bound GoValues
unfolding prepend
assign_items element key i [] = some (no_value, [])
assign_items element key i (r ∷ rs) =
    both prepend (element (key ++ (b'/' ∷ itoa i)) r) (assign_items element key (suc i) rs)

unfoldable pub byte_values : Text → GoValues
byte_values [] = no_value
byte_values (c ∷ cs) = value (uint_value (c % 256)) (byte_values cs)

unfoldable pub assign_slice : (Text → Raw → Bound GoValue) → Text → Items → GoValue → Bound GoValue
unfolding assign_items byte_values
assign_slice element key (items rs) v = wrap slice_value (assign_items element key 0 rs)
assign_slice element key (raw_bytes s) v = some (slice_value (byte_values s), [])
assign_slice element key (no_list p) v = some (v, (key, p) ∷ [])

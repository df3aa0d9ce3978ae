-- ===== src/Bind/Assign/Parts.antt =====
-- internal/bind/bind.go: what the steps of the binder keep of a value, over what its parts keep.
use consulx.Prelude.{
  Bool, true, List, [], ◌∷◌, Option, none, some, Text, ◌≡◌, arith, Bool-cases, inl, inr,
}
use mathlib.Core.Path.{subst}
use consulx.Prelude.Dict.{Dict}
use consulx.Bind.{
  Raw, text, bytes, boolean, int, uint, float, null, list, object, other, dict_of, GoType,
  string_type, bool_type, float_type, duration_type, any_type, map_of_other, closed, int_type,
  uint_type, custom, pointer_type, map_type, slice_type, struct_type, FieldTypes, GoValue,
  string_value, bool_value, int_value, uint_value, float_value, duration_value, custom_value,
  any_value, nil_value, pointer_value, map_value, slice_value, struct_value, GoValues, no_value,
  value, Bound, Binder,
}
use consulx.Bind.Scalars.{scalar}
use consulx.Bind.Assign.{
  bind_fields, finish, perform, Plan, leave, embed, complain, section, take, fill, and_fields,
  head_or, tail_or, fields_or, target_or, as_struct, using, FieldsBound,
}
use consulx.Bind.Values.{
  both, wrap, byte_values, Indexes, all_indexes, not_index, indexes, folder_items, separated,
  raw_bytes, slice_items, is_byte,
}
use consulx.Bind.Fields.{zero_values, join}
use consulx.Bind.Assign.Typed.{
  IsUint, IsPointer, AllValues, IsStruct, IsCons, HasType, HasTypes, Holds, zeros-HasTypes,
}

byte_values-IsUint : (s : Text) → AllValues (IsUint 8) (byte_values s)
unfolding byte_values
byte_values-IsUint [] = tt
byte_values-IsUint (c ∷ cs) = (omega arith, byte_values-IsUint cs)

pub byte_values-HasType :
    (t : GoType) (s : Text) → is_byte t ≡ true → AllValues (HasType t) (byte_values s)
unfolding HasType
byte_values-HasType (uint_type bits) s h =
    let same : 8 ≡ bits = ground (arith, h) in
    subst (λ n. AllValues (IsUint n) (byte_values s)) same (byte_values-IsUint s)
byte_values-HasType string_type s h = cc
byte_values-HasType bool_type s h = cc
byte_values-HasType float_type s h = cc
byte_values-HasType duration_type s h = cc
byte_values-HasType any_type s h = cc
byte_values-HasType map_of_other s h = cc
byte_values-HasType closed s h = cc
byte_values-HasType (int_type bits) s h = cc
byte_values-HasType (custom id) s h = cc
byte_values-HasType (pointer_type t) s h = cc
byte_values-HasType (map_type t) s h = cc
byte_values-HasType (slice_type t) s h = cc
byte_values-HasType (struct_type fs) s h = cc

separated-byte :
    (t : GoType) (o : Option Text) (s : Text) → separated t o ≡ raw_bytes s → is_byte t ≡ true
unfolding separated
separated-byte t none s h = cc
separated-byte t (some x) s h = elim (Bool-cases (is_byte t)) [
  | inl e ↦ e
  | inr e ↦ absurd (ground (arith, h, e))
]

folder-byte :
    (tree : Dict Raw) (ix : Indexes) (s : Text) (b : Bool)
    → folder_items tree ix ≡ raw_bytes s
    → b ≡ true
unfolding folder_items
folder-byte tree (all_indexes ns) s b h = cc
folder-byte tree (not_index k) s b h = cc

pub slice_items-byte :
    (b : Binder) (t : GoType) (raw : Raw) (s : Text)
    → slice_items b t raw ≡ raw_bytes s
    → is_byte t ≡ true
unfolding slice_items
slice_items-byte b t (list rs) s h = cc
slice_items-byte b t (object fs) s h =
    folder-byte (dict_of fs) (indexes (dict_of fs)) s (is_byte t) h
slice_items-byte b t null s h = separated-byte t (scalar b null) s h
slice_items-byte b t (text x) s h = separated-byte t (scalar b (text x)) s h
slice_items-byte b t (bytes x) s h = separated-byte t (scalar b (bytes x)) s h
slice_items-byte b t (boolean x) s h = separated-byte t (scalar b (boolean x)) s h
slice_items-byte b t (int x) s h = separated-byte t (scalar b (int x)) s h
slice_items-byte b t (uint x) s h = separated-byte t (scalar b (uint x)) s h
slice_items-byte b t (float x) s h = separated-byte t (scalar b (float x)) s h
slice_items-byte b t other s h = separated-byte t (scalar b other) s h

pub anything : (r : Bound GoValue) → Holds (λ v. Unit) r
anything none = tt
anything (some (v, es)) = tt

abbrev pub HoldsIn : {A : Type 0} → (A → Type 0) → FieldsBound A → Type 0
HoldsIn P none = Unit
HoldsIn P (some (a, es, used)) = P a

using-Holds :
    (P : GoValue → Type 0) (used : List Text) (r : Bound GoValue)
    → Holds P r
    → HoldsIn P (using used r)
unfolding using
using-Holds P used none h = tt
using-Holds P used (some (v, es)) h = h

pub perform-Holds :
    (P : GoValue → Type 0) (p : Plan) (path name : Text) (v : GoValue)
    (assigned : Text → Raw → GoValue → Bound GoValue) (embedded : GoValue → Bound GoValue)
    (missing : Text → GoValue → Bound GoValue)
    → P v
    → ((k : Text) (r : Raw) (w : GoValue) → P w → Holds P (assigned k r w))
    → ((w : GoValue) → P w → Holds P (embedded w))
    → ((k : Text) (w : GoValue) → P w → Holds P (missing k w))
    → HoldsIn P (perform p path name v assigned embedded missing)
unfolding perform
perform-Holds P leave path name v assigned embedded missing h a e m = h
perform-Holds P embed path name v assigned embedded missing h a e m =
    using-Holds P [] (embedded v) (e v h)
perform-Holds P complain path name v assigned embedded missing h a e m = h
perform-Holds P section path name v assigned embedded missing h a e m =
    using-Holds P [] (missing (join path name) v) (m (join path name) v h)
perform-Holds P (take k r) path name v assigned embedded missing h a e m =
    using-Holds P (k ∷ []) (assigned (join path k) r v) (a (join path k) r v h)
perform-Holds P (fill d) path name v assigned embedded missing h a e m =
    using-Holds P [] (assigned (join path name) (text d) v) (a (join path name) (text d) v h)

pub fields-Holds :
    (P : GoValue → Type 0) (Q : GoValues → Type 0) (one : FieldsBound GoValue)
    (more : FieldsBound GoValues)
    → HoldsIn P one
    → HoldsIn Q more
    → HoldsIn (IsCons P Q) (both and_fields one more)
fields-Holds P Q none more h i = tt
fields-Holds P Q (some (v, es, used)) none h i = tt
fields-Holds P Q (some (v, es, used)) (some (vs, errs, others)) h i = (h, i)

finish-Holds :
    (Q : GoValues → Type 0) (b : Bool) (fs : FieldTypes) (path : Text) (tree : Dict Raw)
    (r : FieldsBound GoValues)
    → HoldsIn Q r
    → Holds (IsStruct Q) (finish b fs path tree r)
unfolding finish
finish-Holds Q b fs path tree none h = tt
finish-Holds Q b fs path tree (some (vs, es, used)) h = h

fields_or-Holds :
    (Q : GoValues → Type 0) (d : GoValues) (v : GoValue) → Q d → IsStruct Q v → Q (fields_or d v)
fields_or-Holds Q d (struct_value vs) h i = i
fields_or-Holds Q d nil_value h i = h
fields_or-Holds Q d (string_value x) h i = h
fields_or-Holds Q d (bool_value x) h i = h
fields_or-Holds Q d (int_value x) h i = h
fields_or-Holds Q d (uint_value x) h i = h
fields_or-Holds Q d (float_value x) h i = h
fields_or-Holds Q d (duration_value x) h i = h
fields_or-Holds Q d (custom_value x) h i = h
fields_or-Holds Q d (any_value x) h i = h
fields_or-Holds Q d (pointer_value x) h i = h
fields_or-Holds Q d (map_value x) h i = h
fields_or-Holds Q d (slice_value x) h i = h

pub head_or-Holds :
    (P : GoValue → Type 0) (Q : GoValues → Type 0) (d : GoValue) (vs : GoValues)
    → IsCons P Q vs
    → P (head_or d vs)
head_or-Holds P Q d no_value h = absurd h
head_or-Holds P Q d (value v vs) h = h.0

pub tail_or-Holds :
    (P : GoValue → Type 0) (Q : GoValues → Type 0) (d vs : GoValues)
    → IsCons P Q vs
    → Q (tail_or d vs)
tail_or-Holds P Q d no_value h = absurd h
tail_or-Holds P Q d (value v vs) h = h.1

pub target_or-Holds :
    (P : GoValue → Type 0) (d v : GoValue) → P d → IsPointer P v → P (target_or d v)
target_or-Holds P d nil_value h i = h
target_or-Holds P d (pointer_value w) h i = i
target_or-Holds P d (string_value x) h i = h
target_or-Holds P d (bool_value x) h i = h
target_or-Holds P d (int_value x) h i = h
target_or-Holds P d (uint_value x) h i = h
target_or-Holds P d (float_value x) h i = h
target_or-Holds P d (duration_value x) h i = h
target_or-Holds P d (custom_value x) h i = h
target_or-Holds P d (any_value x) h i = h
target_or-Holds P d (map_value x) h i = h
target_or-Holds P d (slice_value x) h i = h
target_or-Holds P d (struct_value x) h i = h

pub wrap-Holds :
    (P : GoValue → Type 0) (r : Bound GoValue)
    → Holds P r
    → Holds (IsPointer P) (wrap pointer_value r)
wrap-Holds P none h = tt
wrap-Holds P (some (v, es)) h = h

pub as_struct-Holds :
    (P : GoValue → Type 0) (key : Text) (raw : Raw) (v : GoValue) (bound : Dict Raw → Bound GoValue)
    → P v
    → ((tree : Dict Raw) → Holds P (bound tree))
    → Holds P (as_struct key raw v bound)
unfolding as_struct
as_struct-Holds P key (object fs) v bound h k = k (dict_of fs)
as_struct-Holds P key null v bound h k = h
as_struct-Holds P key (text x) v bound h k = h
as_struct-Holds P key (bytes x) v bound h k = h
as_struct-Holds P key (boolean x) v bound h k = h
as_struct-Holds P key (int x) v bound h k = h
as_struct-Holds P key (uint x) v bound h k = h
as_struct-Holds P key (float x) v bound h k = h
as_struct-Holds P key (list x) v bound h k = h
as_struct-Holds P key other v bound h k = h

pub IsStruct-Holds :
    (fs : FieldTypes) (b : Binder) (key : Text) (tree : Dict Raw) (v : GoValue)
    → IsStruct (HasTypes fs) v
    → ((vs : GoValues) → HasTypes fs vs → HoldsIn (HasTypes fs) (bind_fields fs b key tree vs))
    → Holds (IsStruct (HasTypes fs)) (
        finish b.error_unused fs key tree
          (bind_fields fs b key tree (fields_or (zero_values fs) v)))
IsStruct-Holds fs b key tree v h k =
    finish-Holds (HasTypes fs) b.error_unused fs key tree
      (bind_fields fs b key tree (fields_or (zero_values fs) v))
      (k (fields_or (zero_values fs) v)
        (fields_or-Holds (HasTypes fs) (zero_values fs) v (zeros-HasTypes fs) h))

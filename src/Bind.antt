-- ===== src/Bind.antt =====
-- internal/bind/bind.go: a configuration tree, Go types and values as reflection shows them, and the
-- errors of a binding. Texts are ASCII. A type is finite: one that holds itself through a pointer is
-- none of them.
pub mod Values
pub mod Fields
pub mod Keys
pub mod Scalars
pub mod Assign
use consulx.Prelude.{ℕ, Bool, List, [], ◌∷◌, Option, Text}
use consulx.Prelude.Dict.{Dict}
use consulx.Prelude.Int.{ℤ}

-- A tree: a map, a list, or a leaf. A float is the number of its representation; `other` is a value of
-- any other Go type.
mutual
  pub data Raw : Type 0 where
    text : Text → Raw
    bytes : Text → Raw
    boolean : Bool → Raw
    int : ℤ → Raw
    uint : ℕ → Raw
    float : ℕ → Raw
    null : Raw
    list : RawItems → Raw
    object : RawFields → Raw
    other : Raw

  pub data RawItems : Type 0 where
    no_items : RawItems
    item : Raw → RawItems → RawItems

  pub data RawFields : Type 0 where
    no_fields : RawFields
    field : Text → Raw → RawFields → RawFields

abbrev pub items_of : RawItems → List Raw
items_of no_items = []
items_of (item r rs) = r ∷ items_of rs

abbrev pub dict_of : RawFields → Dict Raw
dict_of no_fields = []
dict_of (field k r rs) = (k, r) ∷ dict_of rs

-- `reflect.StructField`: its tags are what `Lookup` finds under the tag of the options and "default".
pub record FieldInfo : Type 0 where
  pub name : Text
  pub exported : Bool
  pub anonymous : Bool
  pub tag : Option Text
  pub default : Option Text

-- Kinds of types. `custom` is a type that implements TextUnmarshaler and is no pointer; `map_of_other`
-- a map without string keys; `closed` an interface with methods, a channel, a function, and the like.
mutual
  pub data GoType : Type 0 where
    string_type bool_type float_type duration_type any_type map_of_other closed : GoType
    int_type uint_type : ℕ → GoType
    custom : ℕ → GoType
    pointer_type map_type slice_type : GoType → GoType
    struct_type : FieldTypes → GoType

  pub data FieldTypes : Type 0 where
    no_type : FieldTypes
    field_type : FieldInfo → GoType → FieldTypes → FieldTypes

mutual
  pub data GoValue : Type 0 where
    string_value : Text → GoValue
    bool_value : Bool → GoValue
    int_value : ℤ → GoValue
    uint_value : ℕ → GoValue
    float_value : ℕ → GoValue
    duration_value : ℤ → GoValue
    custom_value : ℕ → GoValue
    any_value : Raw → GoValue
    nil_value : GoValue
    pointer_value : GoValue → GoValue
    map_value : GoEntries → GoValue
    slice_value struct_value : GoValues → GoValue

  pub data GoValues : Type 0 where
    no_value : GoValues
    value : GoValue → GoValues → GoValues

  pub data GoEntries : Type 0 where
    no_entry : GoEntries
    entry : Text → GoValue → GoEntries → GoEntries

pub data Problem : Type 0 where
  required unknown_key expected_scalar expected_object expected_list string_keys_only : Problem
  not_numeric : Text → Problem
  bad_duration bad_boolean bad_integer bad_unsigned bad_number unsupported bad_text : Problem

-- `Error`: the key's path and what is wrong.
abbrev pub Error : Type 0
Error = Text × Problem

-- What a call of the binder answers: the value after it and the errors it added, or `none` where
-- reflection panics.
abbrev pub Bound : Type 0 → Type 0
Bound A = Option (A × List Error)

-- `Options`, whose tag the field's tags are looked up under, and what the code calls.
pub record Binder : Type 0 where
  pub error_unused : Bool
  pub parse_duration : Text → Option ℤ
  pub parse_float : Text → Option ℕ
  pub format_float : ℕ → Text
  pub unmarshal : ℕ → ℕ → Text → ℕ × Bool  -- a type, its value, a text; the value after it

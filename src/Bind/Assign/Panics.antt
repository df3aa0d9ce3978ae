-- ===== src/Bind/Assign/Panics.antt =====
-- internal/bind/bind.go: a null that is bound to an empty interface.
use consulx.Prelude.{
  [], ◌∷◌, Option, none, some, Text, text_eq, ◌≡◌, refl, arith, Bool-cases, inl, inr,
}
use consulx.Prelude.Dict.{Dict, lookup}
use consulx.Bind.{Raw, null, object, RawFields, dict_of, any_type, map_type, GoValue, Bound, Binder}
use consulx.Bind.Assign.{assign}
use consulx.Bind.Values.{assign_map, assign_entries, assign_any, put_entry, both}
use consulx.Bind.Fields.{join}

both-none : {A B C : Type 0} (f : A → B → C) (a : Option A) → both f a none ≡ none
both-none f none = refl
both-none f (some a) = refl

entries_null :
    (element : Text → Raw → Bound GoValue) (key k : Text) (tree : Dict Raw)
    → ((j : Text) → element j null ≡ none)
    → lookup k tree ≡ some null
    → assign_entries element key tree ≡ none
unfolding assign_entries lookup
entries_null element key k [] h e = cc
entries_null element key k ((j, r) ∷ tree) h e = elim (Bool-cases (text_eq j k)) [
  | inl same ↦ let isnull : r ≡ null = ground (arith, e, same) in rw (isnull, h (join key j)) refl
  | inr other ↦
      rw (entries_null element key k tree h (rw other at e))
        (both-none (put_entry j) (element (join key j) r))
]

-- A `map[string]any` is never bound to an object that holds a null, at whatever place: the binding
-- panics, whatever else the object holds.
pub assign_map_null :
    (b : Binder) (key k : Text) (fs : RawFields) (v : GoValue)
    → lookup k (dict_of fs) ≡ some null
    → assign (map_type any_type) b key (object fs) v ≡ none
unfolding assign assign_map assign_any
assign_map_null b key k fs v h =
    rw (entries_null (λ j r. assign_any r) key k (dict_of fs) (λ j. refl) h) refl

-- ===== src/Bind/Keys.antt =====
-- internal/bind/bind.go: keys that differ in case and separators only, and the key of a field.
pub mod Order
use consulx.Prelude.{
  ℕ, Bool, true, false, ◌&&◌, ◌||◌, not, List, [], ◌∷◌, ◌++◌, Option, none, some, Text, text_eq,
  text_eq_iff, text_compare, codes, ◌==◌, if◌then◌else◌, ◌≡◌, ◌⊎◌, inl, inr, refl, sym, ap, ◌∙◌,
  arith, Bool-cases, is_empty,
}
use consulx.Prelude.Predicates.{All}
use consulx.Prelude.Dict.{Dict, lookup, NoRepeat, keys}
use consulx.Prelude.TextOrder.{text_leq, text_leq-IsTotalOrder}
use Prim.Native.Nat.{Ordering}
use consulx.ServiceId.{to_lower}
use consulx.Bind.{Raw, null}

abbrev pub is_lt : Ordering → Bool
is_lt Ordering.lt = true
is_lt Ordering.eq = false
is_lt Ordering.gt = false

abbrev pub is_separator : ℕ → Bool
is_separator c = c == b'-' || (c == b'_' || c == b'.')

-- `next` of `sameKey`: the next letter that is no separator, and what stands behind it.
unfoldable pub next_letter : Text → Option (ℕ × Text)
next_letter [] = none
next_letter (c ∷ cs) =
    let rest = next_letter cs in if is_separator c then rest else some (to_lower c, cs)

-- The comparison of one letter with the next of the other key.
unfoldable pub compared : (Text → Bool) → ℕ → Option (ℕ × Text) → Bool
compared more c none = false
compared more c (some (d, rest)) = if c == d then more rest else false

-- The loop of `sameKey`, which compares in place.
unfoldable pub same_key : Text → Text → Bool
unfolding compared next_letter
same_key [] b = elim (next_letter b) [ none ↦ true | some x ↦ false ]
same_key (c ∷ cs) b =
    let skipped = same_key cs b in
    if is_separator c then skipped else compared (same_key cs) (to_lower c) (next_letter b)

-- A key without its separators, in lower case.
unfoldable pub normal : Text → Text
normal [] = []
normal (c ∷ cs) = let rest = normal cs in if is_separator c then rest else to_lower c ∷ rest

abbrev headed : Option (ℕ × Text) → Text
headed none = []
headed (some (d, rest)) = d ∷ normal rest

normal-next : (b : Text) → normal b ≡ headed (next_letter b)
unfolding normal next_letter
normal-next [] = refl
normal-next (c ∷ cs) = ground (arith, normal-next cs)

compared-headed :
    (more : Text → Bool) (c : ℕ) (t : Text) (b : Option (ℕ × Text))
    → ((rest : Text) → more rest ≡ text_eq t (normal rest))
    → compared more c b ≡ text_eq (c ∷ t) (headed b)
unfolding compared text_eq
compared-headed more c t none h = refl
compared-headed more c t (some (d, rest)) h = ground (arith, h rest)

ended : (b : Option (ℕ × Text)) → (elim b [ none ↦ true | some x ↦ false ]) ≡ text_eq [] (headed b)
unfolding text_eq
ended none = refl
ended (some (d, rest)) = refl

-- Keys are compared in place as their forms without separators and in lower case are compared.
pub same_key-normal : (a b : Text) → same_key a b ≡ text_eq (normal a) (normal b)
unfolding same_key normal
same_key-normal [] b = rw (normal-next b) (ended (next_letter b))
same_key-normal (c ∷ cs) b = elim (Bool-cases (is_separator c)) [
  | inl e ↦ rw e (same_key-normal cs b)
  | inr e ↦ rw e (
      rw (normal-next b) (
        compared-headed (same_key cs) (to_lower c) (normal cs) (next_letter b)
          (same_key-normal cs)))
]

-- `!found || k < best`.
abbrev pub smaller : Option Text → Text → Bool
smaller none k = true
smaller (some best) k = is_lt (text_compare k best)

-- An absent key of a Go map has the nil value.
abbrev pub or_null : Option Raw → Raw
or_null none = null
or_null (some v) = v

abbrev pub found_in : Dict Raw → Option Text → Option (Text × Raw)
found_in tree none = none
found_in tree (some k) = some (k, or_null (lookup k tree))

abbrev pub exact : Text → Option Raw → Option (Text × Raw) → Option (Text × Raw)
exact name (some v) other = some (name, v)
exact name none other = other

-- The second loop of `lookup`: the smallest key that is the same as the name.
unfoldable pub best_key : Text → Option Text → List Text → Option Text
best_key name best [] = best
best_key name best (k ∷ ks) =
    best_key name (if smaller best k && same_key k name then some k else best) ks

-- `lookup`: the name itself, or else the smallest key that is the same.
unfoldable pub find_key : Text → Dict Raw → Option (Text × Raw)
unfolding best_key
find_key name tree = exact name (lookup name tree) (found_in tree (best_key name none (keys tree)))

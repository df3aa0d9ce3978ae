-- ===== src/Bind/Keys/Order.antt =====
-- internal/bind/bind.go, `lookup`: the key that is found does not depend on the order in which Go
-- ranges over the map.
use mathlib.Core.Path.{subst}
use consulx.Prelude.{
  true, false, ◌&&◌, List, [], ◌∷◌, Option, none, some, Text, text_eq, text_eq_iff, text_compare,
  if◌then◌else◌, ◌≡◌, ◌⊎◌, inl, inr, refl, sym, ap, ◌∙◌, arith, Bool-cases,
}
use consulx.Prelude.Predicates.{In}
use consulx.Prelude.Dict.{Dict, lookup, keys}
use consulx.Prelude.TextOrder.{
  text_leq, text_leq-IsTotalOrder, text_compare_eq, text_compare-flip, text_compare_refl,
}
use consulx.Bind.{Raw}
use consulx.Bind.Keys.{same_key, best_key, find_key, smaller, is_lt, found_in, or_null, exact}

-- What the loop has found among the keys `D` that it has seen.
abbrev Good : Text → (Text → Type 0) → Option Text → Type 0
Good name D none = (j : Text) → D j → same_key j name ≡ false
Good name D (some k) =
    D k
    × (same_key k name ≡ true)
    × ((j : Text) → D j → same_key j name ≡ true → text_leq k j ≡ true)

abbrev With : Text → (Text → Type 0) → Text → Type 0
With k D j = (j ≡ k) ⊎ D j

smaller-leq : (b k : Text) → is_lt (text_compare k b) ≡ true → text_leq k b ≡ true
smaller-leq b k h = ground (arith, h)

not_smaller : (b k : Text) → is_lt (text_compare k b) ≡ false → text_leq b k ≡ true
not_smaller b k h = ground (arith, h, text_compare-flip k b)

text_leq_refl : (k : Text) → text_leq k k ≡ true
text_leq_refl k = rw (text_compare_refl k) refl

-- The key is skipped: it is not the name, or it is not smaller.
skip :
    (name k : Text) (D : Text → Type 0) (best : Option Text)
    → Good name D best
    → (smaller best k && same_key k name) ≡ false
    → Good name (With k D) best
skip name k D none g h = at
  where
    at : (j : Text) → With k D j → same_key j name ≡ false
    at j (inl e) = rw e (ground (arith, h))
    at j (inr d) = g j d
skip name k D (some b) g h = (inr g.0, g.1, at)
  where
    at : (j : Text) → With k D j → same_key j name ≡ true → text_leq b j ≡ true
    at j (inl e) s =
        rw e (not_smaller b k (ground (arith, h, subst (λ t. same_key t name ≡ true) e s)))
    at j (inr d) s = g.2 j d s

-- The key is taken.
take_key :
    (name k : Text) (D : Text → Type 0) (best : Option Text)
    → Good name D best
    → (smaller best k && same_key k name) ≡ true
    → Good name (With k D) (some k)
take_key name k D none g h = (inl refl, ground (arith, h), at)
  where
    at : (j : Text) → With k D j → same_key j name ≡ true → text_leq k j ≡ true
    at j (inl e) s = rw e (text_leq_refl k)
    at j (inr d) s = absurd (cc (s, g j d))
take_key name k D (some b) g h = (inl refl, ground (arith, h), at)
  where
    at : (j : Text) → With k D j → same_key j name ≡ true → text_leq k j ≡ true
    at j (inl e) s = rw e (text_leq_refl k)
    at j (inr d) s =
        text_leq-IsTotalOrder.trans k b j (smaller-leq b k (ground (arith, h))) (g.2 j d s)

Good-iff :
    (name : Text) (D E : Text → Type 0) (best : Option Text)
    → ((j : Text) → D j → E j)
    → ((j : Text) → E j → D j)
    → Good name D best
    → Good name E best
Good-iff name D E none to from g = λ j e. g j (from j e)
Good-iff name D E (some k) to from g = (to k g.0, g.1, λ j e s. g.2 j (from j e) s)

abbrev Listed : List Text → (Text → Type 0) → Text → Type 0
Listed ks D j = In j ks ⊎ D j

best_key-Good :
    (name : Text) (ks : List Text) (D : Text → Type 0) (best : Option Text)
    → Good name D best
    → Good name (Listed ks D) (best_key name best ks)
unfolding best_key
best_key-Good name [] D best g =
    Good-iff name D (Listed [] D) best (λ j d. inr d)
      (λ j e. elim e [ inl x ↦ absurd x | inr d ↦ d ]) g
best_key-Good name (k ∷ ks) D best g =
    Good-iff name (Listed ks (With k D)) (Listed (k ∷ ks) D)
      (best_key name (if smaller best k && same_key k name then some k else best) ks)
      (λ j e. elim e [
        | inl x ↦ inl (inr x)
        | inr y ↦ elim y [ inl z ↦ inl (inl z) | inr d ↦ inr d ]
      ])
      (λ j e. elim e [
        | inl x ↦ elim x [ inl z ↦ inr (inl z) | inr y ↦ inl y ]
        | inr d ↦ inr (inr d)
      ])
      (best_key-Good name ks (With k D) (if smaller best k && same_key k name then some k else best)
        (elim (Bool-cases (smaller best k && same_key k name)) [
          | inl e ↦ rw e (take_key name k D best g e)
          | inr e ↦ rw e (skip name k D best g e)
        ]))

leq_antisym : (a b : Text) → text_leq a b ≡ true → text_leq b a ≡ true → a ≡ b
leq_antisym a b h k = ground (arith, text_compare-flip a b, text_compare_eq a b, h, k)

Good-unique :
    (name : Text) (D E : Text → Type 0) (a b : Option Text)
    → ((j : Text) → D j → E j)
    → ((j : Text) → E j → D j)
    → Good name D a
    → Good name E b
    → a ≡ b
Good-unique name D E none none to from g h = refl
Good-unique name D E none (some k) to from g h = absurd (cc (g k (from k h.0), h.1))
Good-unique name D E (some k) none to from g h = absurd (cc (h k (to k g.0), g.1))
Good-unique name D E (some k) (some l) to from g h =
    ap some (leq_antisym k l (g.2 l (from l h.0) h.1) (h.2 k (to k g.0) g.1))

In-keys : (k : Text) (m : Dict Raw) → In k (keys m) → (v : Raw) × (lookup k m ≡ some v)
unfolding lookup
In-keys k [] h = absurd h
In-keys k ((j, v) ∷ m) h = elim (Bool-cases (text_eq j k)) [
  | inl e ↦ (v, rw e refl)
  | inr e ↦ elim h [
    | inl same ↦ absurd (ground (arith, text_eq_iff j k, same, e))
    | inr rest ↦ let (w, f) = In-keys k m rest in (w, rw e f)
  ]
]

keys-In : (k : Text) (m : Dict Raw) (v : Raw) → lookup k m ≡ some v → In k (keys m)
unfolding lookup
keys-In k [] v h = absurd (cc)
keys-In k ((j, w) ∷ m) v h = elim (Bool-cases (text_eq j k)) [
  | inl e ↦ inl (sym ((text_eq_iff j k).0 e))
  | inr e ↦ inr (keys-In k m v (rw e at h))
]

module _ (m n : Dict Raw) (same : (k : Text) → lookup k m ≡ lookup k n) where
  keys_to : (j : Text) → Listed (keys m) (λ t. ⊥) j → Listed (keys n) (λ t. ⊥) j
  keys_to j (inl x) = let (v, e) = In-keys j m x in inl (keys-In j n v (sym (same j) ∙ e))
  keys_to j (inr x) = absurd x

  keys_from : (j : Text) → Listed (keys n) (λ t. ⊥) j → Listed (keys m) (λ t. ⊥) j
  keys_from j (inl x) = let (v, e) = In-keys j n x in inl (keys-In j m v (same j ∙ e))
  keys_from j (inr x) = absurd x

  best_same : (name : Text) → best_key name none (keys m) ≡ best_key name none (keys n)
  best_same name =
      Good-unique name (Listed (keys m) (λ t. ⊥)) (Listed (keys n) (λ t. ⊥))
        (best_key name none (keys m)) (best_key name none (keys n)) keys_to keys_from
        (best_key-Good name (keys m) (λ t. ⊥) none (λ j x. absurd x))
        (best_key-Good name (keys n) (λ t. ⊥) none (λ j x. absurd x))

  found_same : (b : Option Text) → found_in m b ≡ found_in n b
  found_same none = refl
  found_same (some k) = ap (λ v. some (k, or_null v)) (same k)

  -- The key that is found for a field, and its value, are those of the map, in whatever order its
  -- entries are visited: maps that hold the same answer the same.
  pub find_key_same : (name : Text) → find_key name m ≡ find_key name n
  unfolding find_key
  find_key_same name =
      ap (λ v. exact name v (found_in m (best_key name none (keys m)))) (same name)
      ∙ ap (exact name (lookup name n))
          (ap (found_in m) (best_same name) ∙ found_same (best_key name none (keys n)))

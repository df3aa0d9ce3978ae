-- ===== src/Prelude/Dict.antt =====
-- A Go map with string keys as an association list. Iteration order is the list's order.
use mathlib.Core.Path.{◌≡◌, refl}
use mathlib.Core.Logic.{◌⊎◌, inl, inr}
use mathlib.Core.Bool.{Bool, true, false}
use mathlib.Core.List.{List, [], ◌∷◌}
use mathlib.Core.Option.{Option, none, some}
use native.Mathlib.Omega.{arith}
use consulx.Prelude.Tests.{if◌then◌else◌}
use consulx.Prelude.Texts.{Text, text_eq, text_eq_iff, text_eq_refl}

abbrev pub Dict {ℓ} : Type ℓ → Type ℓ
Dict V = List (Text × V)

module _ {ℓ} {V : Type ℓ} where
  unfoldable pub lookup : Text → Dict V → Option V
  lookup k [] = none
  lookup k ((j, v) ∷ m) = let rest = lookup k m in if text_eq j k then some v else rest

  unfoldable pub insert : Text → V → Dict V → Dict V
  insert k v [] = (k, v) ∷ []
  insert k v ((j, w) ∷ m) =
      let rest = insert k v m in if text_eq j k then (k, v) ∷ m else (j, w) ∷ rest

  unfoldable pub remove : Text → Dict V → Dict V
  remove k [] = []
  remove k ((j, v) ∷ m) = let rest = remove k m in if text_eq j k then rest else (j, v) ∷ rest

  abbrev pub keys : Dict V → List Text
  keys [] = []
  keys ((k, v) ∷ m) = k ∷ keys m

  pub lookup-insert :
      (k j : Text) (v : V) (m : Dict V)
      → lookup j (insert k v m) ≡ (if text_eq k j then some v else lookup j m)
  unfolding lookup insert
  lookup-insert k j v [] = refl
  lookup-insert k j v ((i, w) ∷ m) =
      ground (arith, text_eq_iff k j, text_eq_iff i k, text_eq_iff i j, lookup-insert k j v m)

  pub lookup-insert_self : (k : Text) (v : V) (m : Dict V) → lookup k (insert k v m) ≡ some v
  lookup-insert_self k v m = simp (lookup-insert, text_eq_refl)

  pub lookup-remove :
      (k j : Text) (m : Dict V) → lookup j (remove k m) ≡ (if text_eq k j then none else lookup j m)
  unfolding lookup remove
  lookup-remove k j [] = ground arith
  lookup-remove k j ((i, w) ∷ m) =
      ground (arith, text_eq_iff k j, text_eq_iff i k, text_eq_iff i j, lookup-remove k j m)

  pub lookup-insert_cases :
      (k j : Text) (v : V) (m : Dict V) {x : V}
      → lookup j (insert k v m) ≡ some x
      → (x ≡ v) ⊎ (lookup j m ≡ some x)
  lookup-insert_cases k j v m {x} h = at_test (text_eq k j) (rw lookup-insert at h)
    where
      at_test :
          (b : Bool) → (if b then some v else lookup j m) ≡ some x → (x ≡ v) ⊎ (lookup j m ≡ some x)
      at_test true e = inl (cc)
      at_test false e = inr e

  -- The key is none of the map's.
  abbrev pub Absent : Text → Dict V → Type 0
  Absent k [] = Unit
  Absent k ((j, v) ∷ m) = (text_eq k j ≡ false) × Absent k m

  -- No key of the map stands twice in its list.
  abbrev pub NoRepeat : Dict V → Type 0
  NoRepeat [] = Unit
  NoRepeat ((k, v) ∷ m) = Absent k m × NoRepeat m

  pub lookup-Absent : (k : Text) (m : Dict V) → Absent k m → lookup k m ≡ none
  unfolding lookup
  lookup-Absent k [] h = refl
  lookup-Absent k ((j, v) ∷ m) h =
      ground (arith, h.0, text_eq_iff j k, text_eq_iff k j, lookup-Absent k m h.1)

  insert-Absent :
      (k j : Text) (v : V) (m : Dict V) → text_eq k j ≡ false → Absent k m → Absent k (insert j v m)
  unfolding insert
  insert-Absent k j v [] e h = (e, tt)
  insert-Absent k j v ((i, w) ∷ m) e h = ground (arith, e, insert-Absent k j v m e h.1)

  pub insert-NoRepeat : (k : Text) (v : V) (m : Dict V) → NoRepeat m → NoRepeat (insert k v m)
  unfolding insert
  insert-NoRepeat k v [] h = (tt, tt)
  insert-NoRepeat k v ((j, w) ∷ m) h =
      ground (arith, text_eq_iff j k, insert-NoRepeat k v m h.1, insert-Absent j k v m)

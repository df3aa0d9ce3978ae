-- ===== src/Prelude/Sort.antt =====
-- Sorting by a Boolean order. `slices.SortFunc` promises a sorted permutation and leaves the order of
-- ties open; an insertion sort is one such, and where no two items tie it is the only one.
pub mod Unique
use Prim.Native.Nat.{ℕ}
use mathlib.Core.Path.{◌≡◌, refl, sym, ◌∙◌, ap}
use mathlib.Core.Logic.{◌⊎◌, inl, inr}
use mathlib.Core.Bool.{Bool, true, false}
use mathlib.Core.List.{List, [], ◌∷◌, Permᴰ}
use mathlib.Core.List.Permᴰ
use native.Mathlib.Omega.{arith}
use consulx.Prelude.Tests.{if◌then◌else◌, Bool-cases}
use consulx.Prelude.Predicates.{All}

module _ {ℓ} {A : Type ℓ} (leq : A → A → Bool) where
  unfoldable pub insert_sorted : A → List A → List A
  insert_sorted x [] = x ∷ []
  insert_sorted x (y ∷ ys) =
      let rest = insert_sorted x ys in if leq x y then x ∷ (y ∷ ys) else y ∷ rest

  unfoldable pub sort : List A → List A
  unfolding insert_sorted
  sort [] = []
  sort (x ∷ xs) = insert_sorted x (sort xs)

  abbrev pub IsSorted : List A → Type 0
  IsSorted [] = Unit
  IsSorted (x ∷ []) = Unit
  IsSorted (x ∷ (y ∷ ys)) = (leq x y ≡ true) × IsSorted (y ∷ ys)

  -- What a strict total preorder in Boolean form promises.
  pub record IsTotalOrder : Type ℓ where
    pub total : (a b : A) → leq a b ≡ false → leq b a ≡ true
    pub trans : (a b c : A) → leq a b ≡ true → leq b c ≡ true → leq a c ≡ true

  insert_sorted-perm : (x : A) (ys : List A) → Permᴰ (insert_sorted x ys) (x ∷ ys)
  unfolding insert_sorted
  insert_sorted-perm x [] = Permᴰ.refl (x ∷ [])
  insert_sorted-perm x (y ∷ ys) = elim (Bool-cases (leq x y)) [
    | inl e ↦ rw e (Permᴰ.refl (x ∷ (y ∷ ys)))
    | inr e ↦ rw e (Permᴰ.trans (Permᴰ.cons refl (insert_sorted-perm x ys)) (Permᴰ.swap refl refl))
  ]

  pub sort-perm : (xs : List A) → Permᴰ (sort xs) xs
  unfolding sort
  sort-perm [] = Permᴰ.nil
  sort-perm (x ∷ xs) = Permᴰ.trans (insert_sorted-perm x (sort xs)) (Permᴰ.cons refl (sort-perm xs))

module _ {ℓ} {A : Type ℓ} (leq : A → A → Bool) (o : IsTotalOrder leq) where
  -- Inserting behind a smaller head keeps the list sorted.
  insert_sorted_behind :
      (x y : A) (ys : List A)
      → leq y x ≡ true
      → IsSorted leq (y ∷ ys)
      → IsSorted leq (insert_sorted leq x ys)
      → IsSorted leq (y ∷ insert_sorted leq x ys)
  unfolding insert_sorted
  insert_sorted_behind x y [] le h s = (le, tt)
  insert_sorted_behind x y (z ∷ zs) le h s = elim (Bool-cases (leq x z)) [
    | inl e ↦ rw e (le, (e, h.1))
    | inr e ↦ rw e (h.0, rw e at s)
  ]

  insert_sorted-IsSorted :
      (x : A) (ys : List A) → IsSorted leq ys → IsSorted leq (insert_sorted leq x ys)
  unfolding insert_sorted
  insert_sorted-IsSorted x [] h = tt
  insert_sorted-IsSorted x (y ∷ []) h = elim (Bool-cases (leq x y)) [
    | inl e ↦ rw e (e, tt)
    | inr e ↦ rw e (o.total x y e, tt)
  ]
  insert_sorted-IsSorted x (y ∷ (z ∷ zs)) h = elim (Bool-cases (leq x y)) [
    | inl e ↦ rw e (e, h)
    | inr e ↦ rw e (
        insert_sorted_behind x y (z ∷ zs) (o.total x y e) h (insert_sorted-IsSorted x (z ∷ zs) h.1))
  ]

  pub sort-IsSorted : (xs : List A) → IsSorted leq (sort leq xs)
  unfolding sort
  sort-IsSorted [] = tt
  sort-IsSorted (x ∷ xs) = insert_sorted-IsSorted x (sort leq xs) (sort-IsSorted xs)

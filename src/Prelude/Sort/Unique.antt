-- ===== src/Prelude/Sort/Unique.antt =====
-- Where no two different items tie, the sorted list does not depend on the order of the input.
use mathlib.Core.Path.{◌≡◌, refl, ◌∙◌}
use mathlib.Core.Bool.{Bool, true}
use mathlib.Core.List.{List, [], ◌∷◌, Permᴰ}
use native.Mathlib.Omega.{arith}
use consulx.Prelude.Predicates.{All}
use consulx.Prelude.Sort.{insert_sorted, sort, IsTotalOrder}

module _ {ℓ} {A : Type ℓ} (leq : A → A → Bool) (o : IsTotalOrder leq) where
  insert_sorted_comm :
      (x y : A) (l : List A)
      → (leq x y ≡ true → leq y x ≡ true → x ≡ y)
      → insert_sorted leq x (insert_sorted leq y l) ≡ insert_sorted leq y (insert_sorted leq x l)
  unfolding insert_sorted
  insert_sorted_comm x y [] tie = ground (arith, o.total x y, tie)
  insert_sorted_comm x y (z ∷ zs) tie =
      ground (arith, o.total x y, o.trans x y z, o.trans y x z, tie, insert_sorted_comm x y zs tie)

  module _ {κ} (P : A → Type κ)
      (tie : (a b : A) → P a → P b → leq a b ≡ true → leq b a ≡ true → a ≡ b) where
    All-perm : {xs ys : List A} → Permᴰ xs ys → All P xs → All P ys
    All-perm Permᴰ.nil h = tt
    All-perm (Permᴰ.cons e p) h = (rw (← e) h.0, All-perm p h.1)
    All-perm (Permᴰ.swap e f) h = (rw (← f) h.1.0, (rw (← e) h.0, h.1.1))
    All-perm (Permᴰ.trans p q) h = All-perm q (All-perm p h)

    pub sort_of_perm : {xs ys : List A} → Permᴰ xs ys → All P xs → sort leq xs ≡ sort leq ys
    unfolding sort
    sort_of_perm Permᴰ.nil h = refl
    sort_of_perm (Permᴰ.cons e p) h = cc (e, sort_of_perm p h.1)
    sort_of_perm (Permᴰ.swap {a} {b} {l = l} e f) h =
        insert_sorted_comm a b (sort leq l) (tie a b h.0 h.1.0) ∙ cc (e, f)
    sort_of_perm (Permᴰ.trans p q) h = sort_of_perm p h ∙ sort_of_perm q (All-perm p h)

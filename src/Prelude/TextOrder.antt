-- ===== src/Prelude/TextOrder.antt =====
-- `text_compare` is a strict total order on byte strings.
use Prim.Native.Nat.{Ordering}
use mathlib.Core.Path.{◌≡◌, refl}
use mathlib.Core.List.{[], ◌∷◌}
use mathlib.Core.Bool.{Bool, true, false}
use native.Mathlib.Omega.{arith}
use consulx.Prelude.Texts.{Text, text_compare}
use consulx.Prelude.Sort.{IsTotalOrder}

abbrev pub flip : Ordering → Ordering
flip Ordering.lt = Ordering.gt
flip Ordering.eq = Ordering.eq
flip Ordering.gt = Ordering.lt

pub text_compare-flip : (a b : Text) → text_compare b a ≡ flip (text_compare a b)
unfolding text_compare
text_compare-flip [] [] = refl
text_compare-flip [] (y ∷ ys) = refl
text_compare-flip (x ∷ xs) [] = refl
text_compare-flip (x ∷ xs) (y ∷ ys) = ground (arith, text_compare-flip xs ys)

pub text_compare_eq : (a b : Text) → text_compare a b ≡ Ordering.eq → a ≡ b
unfolding text_compare
text_compare_eq [] [] h = refl
text_compare_eq [] (y ∷ ys) h = cc
text_compare_eq (x ∷ xs) [] h = cc
text_compare_eq (x ∷ xs) (y ∷ ys) h = ground (arith, text_compare_eq xs ys)

pub text_compare_lt_trans :
    (a b c : Text)
    → text_compare a b ≡ Ordering.lt
    → text_compare b c ≡ Ordering.lt
    → text_compare a c ≡ Ordering.lt
unfolding text_compare
text_compare_lt_trans [] [] c h k = cc
text_compare_lt_trans [] (y ∷ ys) [] h k = cc
text_compare_lt_trans [] (y ∷ ys) (z ∷ zs) h k = refl
text_compare_lt_trans (x ∷ xs) [] c h k = cc
text_compare_lt_trans (x ∷ xs) (y ∷ ys) [] h k = cc
text_compare_lt_trans (x ∷ xs) (y ∷ ys) (z ∷ zs) h k =
    ground (arith, text_compare_eq xs ys, text_compare_eq ys zs, text_compare_lt_trans xs ys zs)

pub text_compare_refl : (a : Text) → text_compare a a ≡ Ordering.eq
unfolding text_compare
text_compare_refl [] = refl
text_compare_refl (x ∷ xs) = ground (arith, text_compare_refl xs)

abbrev pub not_gt : Ordering → Bool
not_gt Ordering.lt = true
not_gt Ordering.eq = true
not_gt Ordering.gt = false

abbrev pub text_leq : Text → Text → Bool
text_leq a b = not_gt (text_compare a b)

pub text_leq-IsTotalOrder : IsTotalOrder text_leq
text_leq-IsTotalOrder = record {
  total = λ a b h. ground (arith, text_compare-flip a b);
  trans = λ a b c h k.
      ground (arith, text_compare_lt_trans a b c, text_compare_eq a b, text_compare_eq b c);
}

-- ===== src/Prelude/Decimal.antt =====
-- `strconv.Itoa` on numbers that are not negative, and the number that a row of digits writes.
use Prim.Native.Nat.{ℕ, zero, suc, ◌+◌, ◌-◌, ◌*◌, ◌/◌, ◌%◌, ◌<◌, ◌≤◌}
use mathlib.Core.Path.{◌≡◌, refl, ap}
use mathlib.Core.Bool.{false}
use mathlib.Core.List.{[], ◌∷◌}
use native.Mathlib.Omega.{arith}
use consulx.Prelude.Tests.{ltb, if◌then◌else◌, if_both}
use consulx.Prelude.Lists.{is_empty}
use consulx.Prelude.Predicates.{All}
use consulx.Prelude.Texts.{Text}

-- The fuel is at least the number, so it outlasts the digits.
unfoldable pub itoa_from : ℕ → ℕ → Text → Text
itoa_from zero n acc = acc
itoa_from (suc f) n acc =
    let acc' = (48 + n % 10) ∷ acc in
    let rest = itoa_from f (n / 10) acc' in if ltb n 10 then acc' else rest

unfoldable pub itoa : ℕ → Text
unfolding itoa_from
itoa n = itoa_from (suc n) n []

-- A digit of ASCII.
abbrev pub IsDigit : ℕ → Type 0
IsDigit c = (48 ≤ c) × (c ≤ 57)

-- The number that the digits write after those of `v`.
unfoldable pub value_from : ℕ → Text → ℕ
value_from v [] = v
value_from v (c ∷ cs) = value_from (v * 10 + (c - 48)) cs

value_from-itoa :
    (f n : ℕ) (acc : Text) → n < f → value_from 0 (itoa_from f n acc) ≡ value_from n acc
unfolding value_from itoa_from
value_from-itoa zero n acc h = elim h [ ]
value_from-itoa (suc f) n acc h =
    let whole : n / 10 * 10 + (48 + n % 10 - 48) ≡ n = omega arith in
    ground
      (arith, value_from-itoa f (n / 10) ((48 + n % 10) ∷ acc), ap (λ v. value_from v acc) whole)

pub value_from-le : (v : ℕ) (s : Text) → v ≤ value_from v s
unfolding value_from
value_from-le v [] = omega arith
value_from-le v (c ∷ cs) = omega (arith, value_from-le (v * 10 + (c - 48)) cs)

-- The digits of a number write that number.
pub value-itoa : (n : ℕ) → value_from 0 (itoa n) ≡ n
unfolding itoa value_from
value-itoa n = value_from-itoa (suc n) n [] (omega arith)

itoa_from-digits : (f n : ℕ) (acc : Text) → All IsDigit acc → All IsDigit (itoa_from f n acc)
unfolding itoa_from
itoa_from-digits zero n acc h = h
itoa_from-digits (suc f) n acc h = ground (arith, itoa_from-digits f (n / 10) ((48 + n % 10) ∷ acc))

pub itoa-digits : (n : ℕ) → All IsDigit (itoa n)
unfolding itoa
itoa-digits n = itoa_from-digits (suc n) n [] tt

itoa_from-is_empty : (f n : ℕ) (c : ℕ) (acc : Text) → is_empty (itoa_from f n (c ∷ acc)) ≡ false
unfolding itoa_from
itoa_from-is_empty zero n c acc = refl
itoa_from-is_empty (suc f) n c acc =
    if_both {A = Text} (λ t. is_empty t ≡ false) (ltb n 10) refl
      (itoa_from-is_empty f (n / 10) (48 + n % 10) (c ∷ acc))

pub itoa-is_empty : (n : ℕ) → is_empty (itoa n) ≡ false
unfolding itoa itoa_from
itoa-is_empty n =
    if_both {A = Text} (λ t. is_empty t ≡ false) (ltb n 10) refl
      (itoa_from-is_empty n (n / 10) (48 + n % 10) [])

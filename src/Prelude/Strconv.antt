-- ===== src/Prelude/Strconv.antt =====
-- Booleans and numbers in text, as strconv reads them.
use Prim.Native.Nat.{ℕ, ◌+◌, ◌-◌, ◌*◌, ◌^◌, ◌<◌}
use mathlib.Core.Path.{◌≡◌, refl}
use mathlib.Core.Bool.{Bool, true, false, ◌&&◌, not}
use mathlib.Core.List.{List, [], ◌∷◌}
use mathlib.Core.Option.{Option, none, some}
use native.Mathlib.Omega.{arith}
use consulx.Prelude.Tests.{ltb, leb, ◌==◌, if◌then◌else◌}
use consulx.Prelude.Lists.{any_of, is_empty}
use consulx.Prelude.Texts.{Text, codes, text_eq}
use consulx.Prelude.Predicates.{All}
use consulx.Prelude.Decimal.{
  itoa, IsDigit, itoa-digits, itoa-is_empty, value_from, value_from-le, value-itoa,
}
use consulx.Prelude.Int.{ℤ, pos, negsuc, sub_zero}

abbrev pub one_of : Text → List Text → Bool
one_of t xs = any_of (λ x. text_eq x t) xs

-- `strconv.ParseBool`.
unfoldable pub parse_bool : Text → Option Bool
parse_bool t =
    if one_of t
      (codes "1" ∷ codes "t" ∷ codes "T" ∷ codes "true" ∷ codes "TRUE" ∷ codes "True" ∷ [])
    then some true
    else if one_of t
        (codes "0" ∷ codes "f" ∷ codes "F" ∷ codes "false" ∷ codes "FALSE" ∷ codes "False" ∷ [])
    then some false
    else none

-- The digits of `strconv.Atoi`: it stops where the number leaves 64 bits.
unfoldable pub scan : ℕ → Text → Option ℕ
scan v [] = some v
scan v (c ∷ cs) =
    let v' = v * 10 + (c - 48) in
    let rest = scan v' cs in
    if not (leb 48 c && leb c 57) then none else if ltb v' (2 ^ 64) then rest else some (2 ^ 64 - 1)

unfoldable pub unsigned : Text → Option ℕ
unfolding scan
unsigned t = if is_empty t then none else scan 0 t

-- The number, and whether there was no error.
signed : Bool → Option ℕ → ℤ × Bool
signed negative none = (pos 0, false)
signed false (some n) = if ltb n (2 ^ 63) then (pos n, true) else (pos (2 ^ 63 - 1), false)
signed true (some n) = if leb n (2 ^ 63) then (sub_zero n, true) else (negsuc (2 ^ 63 - 1), false)

unfoldable pub atoi : Text → ℤ × Bool
unfolding signed unsigned
atoi [] = (pos 0, false)
atoi (c ∷ cs) =
    if c == b'-'
    then signed true (unsigned cs)
    else if c == b'+'
    then signed false (unsigned cs)
    else signed false (unsigned (c ∷ cs))

scan-value :
    (v : ℕ) (d : Text) → All IsDigit d → value_from v d < 2 ^ 64 → scan v d ≡ some (value_from v d)
unfolding scan value_from
scan-value v [] h b = refl
scan-value v (c ∷ d) h b =
    ground (arith, h.0, value_from-le (v * 10 + (c - 48)) d, scan-value (v * 10 + (c - 48)) d h.1)

unsigned-digits :
    (n : ℕ) (c : ℕ) (cs : Text)
    → All IsDigit (c ∷ cs)
    → value_from 0 (c ∷ cs) ≡ n
    → n < 2 ^ 64
    → unsigned (c ∷ cs) ≡ some n
unfolding unsigned
unsigned-digits n c cs d v h = rw (scan-value 0 (c ∷ cs) d (rw v h)) (rw v refl)

atoi-digits :
    (n : ℕ) (t : Text)
    → All IsDigit t
    → is_empty t ≡ false
    → value_from 0 t ≡ n
    → n < 2 ^ 63
    → atoi t ≡ (pos n, true)
unfolding atoi
atoi-digits n [] d e v h = cc
atoi-digits n (c ∷ cs) d e v h = ground (arith, d.0, unsigned-digits n c cs d v (omega arith))

-- A number is read back from its digits.
pub atoi-itoa : (n : ℕ) → n < 2 ^ 63 → atoi (itoa n) ≡ (pos n, true)
atoi-itoa n h = atoi-digits n (itoa n) (itoa-digits n) (itoa-is_empty n) (value-itoa n) h

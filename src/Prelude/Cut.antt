-- ===== src/Prelude/Cut.antt =====
-- Text cut in two at a character.
use Prim.Native.Nat.{ℕ}
use mathlib.Core.Path.{◌≡◌, refl}
use mathlib.Core.Bool.{Bool, false, ◌||◌}
use mathlib.Core.List.{[], ◌∷◌, ◌++◌}
use mathlib.Core.Option.{Option, none, some}
use native.Mathlib.Omega.{arith}
use consulx.Prelude.Tests.{◌==◌, if◌then◌else◌}
use consulx.Prelude.Lists.{any_of}
use consulx.Prelude.Texts.{Text}
use consulx.Prelude.Predicates.{All}

abbrev pub Without : ℕ → Text → Type 0
Without sep s = All (λ c. (c == sep) ≡ false) s

-- `strings.Cut` at one character; `none` if it is not there.
unfoldable pub cut_char : ℕ → Text → Option (Text × Text)
cut_char sep [] = none
cut_char sep (c ∷ cs) =
    let rest = cut_char sep cs in
    if c == sep
    then some ([], cs)
    else elim rest [ none ↦ none | some (before, after) ↦ some (c ∷ before, after) ]

-- The text before and after the last such character.
unfoldable pub cut_last : ℕ → Text → Option (Text × Text)
cut_last sep [] = none
cut_last sep (c ∷ cs) = elim (cut_last sep cs) [
  | some (before, after) ↦ some (c ∷ before, after)
  | none ↦ if c == sep then some ([], cs) else none
]

pub cut_char-append :
    (sep : ℕ) (s t : Text) → Without sep s → cut_char sep (s ++ (sep ∷ t)) ≡ some (s, t)
unfolding cut_char
cut_char-append sep [] t h = ground arith
cut_char-append sep (c ∷ s) t h = ground (arith, h.0, cut_char-append sep s t h.1)

cut_last-none : (sep : ℕ) (s : Text) → Without sep s → cut_last sep s ≡ none
unfolding cut_last
cut_last-none sep [] h = refl
cut_last-none sep (c ∷ s) h = ground (arith, h.0, cut_last-none sep s h.1)

pub cut_last-append :
    (sep : ℕ) (s t : Text) → Without sep t → cut_last sep (s ++ (sep ∷ t)) ≡ some (s, t)
unfolding cut_last
cut_last-append sep [] t h = ground (arith, cut_last-none sep t h)
cut_last-append sep (c ∷ s) t h = rw (cut_last-append sep s t h) refl

pub any_of-append : (p : ℕ → Bool) (s t : Text) → any_of p (s ++ t) ≡ (any_of p s || any_of p t)
any_of-append p [] t = refl
any_of-append p (c ∷ s) t = ground (arith, any_of-append p s t)

pub any_of-Without : (sep : ℕ) (s : Text) → any_of (λ c. c == sep) s ≡ false → Without sep s
any_of-Without sep [] h = tt
any_of-Without sep (c ∷ s) h = (ground (arith, h), any_of-Without sep s (ground (arith, h)))

pub Without-any_of : (sep : ℕ) (s : Text) → Without sep s → any_of (λ c. c == sep) s ≡ false
Without-any_of sep [] h = refl
Without-any_of sep (c ∷ s) h = ground (arith, h.0, Without-any_of sep s h.1)

-- ===== src/Prelude/Trim.antt =====
-- Text without the blanks at its ends, as `strings.TrimSpace` cuts it.
use mathlib.Core.Path.{◌≡◌, refl, ap}
use mathlib.Core.Bool.{Bool, false, ◌&&◌, ◌||◌}
use mathlib.Core.List.{[], ◌∷◌, ◌++◌}
use Prim.Native.Nat.{ℕ, ◌≤◌}
use mathlib.Core.Logic.{inl, inr}
use native.Mathlib.Omega.{arith}
use consulx.Prelude.Tests.{leb, ◌==◌, if◌then◌else◌, Bool-cases}
use consulx.Prelude.Lists.{is_empty, length}
use consulx.Prelude.Texts.{Text}
use consulx.Prelude.Predicates.{All}

-- `unicode.IsSpace` in ASCII.
abbrev pub is_space : ℕ → Bool
is_space c = leb 9 c && leb c 13 || c == 32

unfoldable pub trim_start : Text → Text
trim_start [] = []
trim_start (c ∷ cs) = let rest = trim_start cs in if is_space c then rest else c ∷ cs

unfoldable pub trim_end : Text → Text
trim_end [] = []
trim_end (c ∷ cs) = let rest = trim_end cs in if is_empty rest && is_space c then [] else c ∷ rest

-- `strings.TrimSpace`.
unfoldable pub trim_space : Text → Text
unfolding trim_start trim_end
trim_space t = trim_end (trim_start t)

abbrev pub NoBlank : Text → Type 0
NoBlank s = All (λ c. is_space c ≡ false) s

pub trim_start_lem : (s : Text) → NoBlank s → trim_start s ≡ s
unfolding trim_start
trim_start_lem [] h = refl
trim_start_lem (c ∷ cs) h = ground (arith, h.0)

pub trim_end_lem : (s : Text) → NoBlank s → trim_end s ≡ s
unfolding trim_end
trim_end_lem [] h = refl
trim_end_lem (c ∷ cs) h = ground (arith, h.0, trim_end_lem cs h.1)

-- Neither end of the text is blank.
pub record IsTrimmed (t : Text) : Type 0 where
  pub start : trim_start t ≡ t
  pub end : trim_end t ≡ t

pub IsTrimmed-trim_space : (t : Text) → IsTrimmed t → trim_space t ≡ t
unfolding trim_space
IsTrimmed-trim_space t h = rw h.start h.end

trim_start-length : (t : Text) → length (trim_start t) ≤ length t
unfolding trim_start
trim_start-length [] = omega arith
trim_start-length (c ∷ cs) = ground (arith, trim_start-length cs)

pub trimmed_head : (c : ℕ) (cs : Text) → trim_start (c ∷ cs) ≡ c ∷ cs → is_space c ≡ false
unfolding trim_start
trimmed_head c cs h = elim (Bool-cases (is_space c)) [
  | inl e ↦ absurd (omega (arith, ap length (rw e at h), trim_start-length cs))
  | inr e ↦ e
]

pub trim_start-append :
    (c : ℕ) (cs t : Text) → is_space c ≡ false → trim_start ((c ∷ cs) ++ t) ≡ (c ∷ cs) ++ t
unfolding trim_start
trim_start-append c cs t h = rw h refl

is_empty-append : (s t : Text) → is_empty t ≡ false → is_empty (s ++ t) ≡ false
is_empty-append [] t h = h
is_empty-append (c ∷ s) t h = refl

-- What stands before text that is not all blank keeps its end.
pub trim_end-append :
    (s t : Text) → is_empty (trim_end t) ≡ false → trim_end (s ++ t) ≡ s ++ trim_end t
unfolding trim_end
trim_end-append [] t h = refl
trim_end-append (c ∷ s) t h =
    rw (trim_end-append s t h) (rw (is_empty-append s (trim_end t) h) refl)

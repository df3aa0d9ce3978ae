-- ===== src/Health.antt =====
-- health/health.go: the health of components, and the registry that aggregates it.
pub mod Registry
pub mod Probe
pub mod Execution
pub mod Handler
use consulx.Prelude.{ℕ, Bool, true, false, ◌||◌, List, [], ◌∷◌, Text, ltb, if◌then◌else◌}
use consulx.Prelude.Dict.{Dict}

-- `Status` is a string: the three constants, and any other.
pub data Status : Type 0 where
  up degraded down : Status
  other : Text → Status

unfoldable pub severity : Status → ℕ
severity up = 0
severity degraded = 1
severity down = 2
severity (other t) = 2

unfoldable pub worse : Status → Status → Status
unfolding severity
worse s t = if ltb (severity s) (severity t) then t else s

-- `Result`; a detail is its JSON text.
pub record CheckResult : Type 0 where
  pub status : Status
  pub details : Dict Text
  pub error : Text

-- A `uint8` of flags: its two named bits, and whether another one is set.
pub record Scope : Type 0 where
  pub readiness : Bool
  pub liveness : Bool
  pub unnamed : Bool

abbrev pub readiness_scope : Scope
readiness_scope = record { readiness = true; liveness = false; unnamed = false }

abbrev pub liveness_scope : Scope
liveness_scope = record { readiness = false; liveness = true; unnamed = false }

-- `s | sc`.
abbrev pub both : Scope → Scope → Scope
both a b = record {
  readiness = a.readiness || b.readiness;
  liveness = a.liveness || b.liveness;
  unnamed = a.unnamed || b.unnamed;
}

abbrev pub no_scope : Scope
no_scope = record { readiness = false; liveness = false; unnamed = false }

unfoldable pub all_flags : Scope → List Scope → Scope
all_flags s [] = s
all_flags s (sc ∷ scopes) = all_flags (both s sc) scopes

abbrev pub any_flag : Scope → Bool
any_flag s = s.readiness || (s.liveness || s.unnamed)

unfoldable pub combine : List Scope → Scope
unfolding all_flags
combine scopes = let s = all_flags no_scope scopes in if any_flag s then s else readiness_scope

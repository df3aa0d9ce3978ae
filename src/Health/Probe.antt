-- ===== src/Health/Probe.antt =====
-- What a probe reports: the worst severity among the components of its scope, in whatever order the
-- map lists them, and the result of each.
use mathlib.Core.List.{Permᴰ}
use consulx.Prelude.{
  ℕ, max, Bool, true, false, [], ◌∷◌, Option, none, some, Text, ◌≡◌, refl, ◌∙◌, ◌||◌, not, List,
  is_empty, arith, if◌then◌else◌,
}
use consulx.Prelude.Dict.{Dict, insert}
use consulx.Health.{
  Status, up, severity, worse, CheckResult, Scope, readiness_scope, liveness_scope, both, combine,
  any_flag,
}
use consulx.Health.Registry.{
  Component, Registry, Report, matches, outcome, collect, run, ready, live, health,
}

-- The worse of a component's severity, if it is of the scope, and of `n`.
unfoldable pub counted : (Text → CheckResult) → Scope → Text × Component → ℕ → ℕ
counted checked scope (name, c) n =
    if matches scope c then max (severity (outcome checked name c).status) n else n

-- The severity of the worst result of the scope.
unfoldable pub worst : (Text → CheckResult) → Scope → Dict Component → ℕ
worst checked scope [] = 0
worst checked scope (p ∷ cs) = counted checked scope p (worst checked scope cs)

severity-worse : (s t : Status) → severity (worse s t) ≡ max (severity s) (severity t)
unfolding worse
severity-worse s t = ground arith

severity-collect :
    (checked : Text → CheckResult) (scope : Scope) (cs : Dict Component) (rep : Report)
    → severity (collect checked scope cs rep).status
      ≡ max (severity rep.status) (worst checked scope cs)
unfolding collect worst counted
severity-collect checked scope [] rep = omega arith
severity-collect checked scope ((name, c) ∷ cs) rep =
    let res = outcome checked name c in
    ground (
      arith,
      severity-worse rep.status res.status,
      severity-collect checked scope cs (record {
        status = worse rep.status res.status;
        components = insert name res rep.components;
      }),
      severity-collect checked scope cs rep,
    )

counted_comm :
    (checked : Text → CheckResult) (scope : Scope) (p q : Text × Component) (n : ℕ)
    → counted checked scope p (counted checked scope q n)
      ≡ counted checked scope q (counted checked scope p n)
unfolding counted
counted_comm checked scope p q n = ground arith

worst_perm :
    {cs ds : Dict Component} (checked : Text → CheckResult) (scope : Scope)
    → Permᴰ cs ds
    → worst checked scope cs ≡ worst checked scope ds
unfolding worst
worst_perm checked scope Permᴰ.nil = refl
worst_perm checked scope (Permᴰ.cons e p) = cc (e, worst_perm checked scope p)
worst_perm checked scope (Permᴰ.swap {a} {b} {l = l} e f) =
    counted_comm checked scope a b (worst checked scope l) ∙ cc (e, f)
worst_perm checked scope (Permᴰ.trans p q) = worst_perm checked scope p ∙ worst_perm checked scope q

-- The severity of a probe's answer.
abbrev pub expected : Bool → ℕ → ℕ
expected true n = 2
expected false n = n

-- Readiness and the aggregate answer DOWN while the instance drains. Otherwise each probe, liveness
-- always, answers the worst severity among the components of its scope, whatever order the map lists
-- them in.
pub probes-worst :
    {cs : Dict Component} (r : Registry) (checked : Text → CheckResult)
    → Permᴰ r.components cs
    → (severity (ready r checked).status ≡ expected r.draining (worst checked readiness_scope cs))
      × (severity (live r checked).status ≡ worst checked liveness_scope cs)
      × (severity (health r checked).status
          ≡ expected r.draining (worst checked (both readiness_scope liveness_scope) cs))
unfolding ready live health run severity
probes-worst {cs} r checked p = (
  ground (arith, at_scope readiness_scope),
  at_scope liveness_scope,
  ground (arith, at_scope (both readiness_scope liveness_scope)),
)
  where
    at_scope : (scope : Scope) → severity (run r checked scope).status ≡ worst checked scope cs
    at_scope scope =
        unfold run severity in
        ground (
          arith,
          worst_perm checked scope p,
          severity-collect checked scope r.components (record { status = up; components = [] }),
        )

-- Of a list of scopes: whether one of them is readiness, and whether one is a scope at all.
abbrev pub one_is_ready : List Scope → Bool
one_is_ready [] = false
one_is_ready (s ∷ ss) = s.readiness || one_is_ready ss

abbrev pub one_is_scope : List Scope → Bool
one_is_scope [] = false
one_is_scope (s ∷ ss) = any_flag s || one_is_scope ss

-- Whether a component is one of readiness after `Set`: by the scopes that were given, and if none were, a
-- pushed component as before, and any other always.
abbrev pub is_ready_after : Option Component → List Scope → Bool
is_ready_after none scopes = one_is_ready scopes || not (one_is_scope scopes)
is_ready_after (some c) scopes =
    if c.has_checker || not (is_empty scopes)
    then one_is_ready scopes || not (one_is_scope scopes)
    else c.scope.readiness

abbrev scope_after : Option Component → List Scope → Scope
scope_after none scopes = combine scopes
scope_after (some c) scopes =
    if c.has_checker || not (is_empty scopes) then combine scopes else c.scope

abbrev after_set : Option Component → CheckResult → List Scope → Component
after_set o res scopes = record { scope = scope_after o scopes; has_checker = false; pushed = res }

-- ===== src/Health/Registry.antt =====
-- health/health.go: Registry and its probes. What a probe gets from the checker of a component is an
-- argument (`Execution` says how it comes about). The components are listed in one order; the source
-- ranges over a map, in any.
use consulx.Prelude.{
  ℕ, ◌||◌, ◌&&◌, Bool, true, false, List, [], ◌∷◌, ◌++◌, map, Option, none, some, Text, codes, ltb,
  is_empty, if◌then◌else◌,
}
use consulx.Prelude.Dict.{Dict, lookup, insert, remove}
use consulx.Health.{
  Status, up, degraded, down, other, worse, CheckResult, Scope, readiness_scope, liveness_scope,
  both, combine,
}

pub record Component : Type 0 where
  pub scope : Scope
  pub has_checker : Bool  -- false for pushed components
  pub pushed : CheckResult

-- A listener is known by its number.
pub record Registry : Type 0 where
  pub timeout : ℕ
  pub components : Dict Component
  pub draining : Bool
  pub listeners : List ℕ

pub record Report : Type 0 where
  pub status : Status
  pub components : Dict CheckResult

abbrev pub default_check_timeout : ℕ
default_check_timeout = 3000000000

-- The zero value of `Result`, whose status is the empty string.
abbrev pub no_result : CheckResult
no_result = record { status = other []; details = []; error = [] }

unfoldable pub new_registry : ℕ → Registry
new_registry timeout = record {
  timeout = if ltb 0 timeout then timeout else default_check_timeout;
  components = [];
  draining = false;
  listeners = [];
}

abbrev pub store : Registry → Text → Component → Registry
store r name c = record r { components = insert name c r.components }

unfoldable pub register : Registry → Text → List Scope → Registry
register r name scopes =
    store r name (record { scope = combine scopes; has_checker = true; pushed = no_result })

-- What `Set` leaves under the name.
unfoldable pub pushed_component : Option Component → CheckResult → List Scope → Component
pushed_component none res scopes = record {
  scope = combine scopes;
  has_checker = false;
  pushed = res;
}
pushed_component (some c) res scopes =
    if c.has_checker
    then record { scope = combine scopes; has_checker = false; pushed = res }
    else record c { scope = if is_empty scopes then c.scope else combine scopes; pushed = res }

-- `Set`: the registry, and the calls of the listeners, in order.
unfoldable pub set : Registry → Text → CheckResult → List Scope → Registry × List (ℕ × Status)
unfolding pushed_component
set r name res scopes = (
  store r name (pushed_component (lookup name r.components) res scopes),
  map (λ l. (l, res.status)) r.listeners,
)

unfoldable pub remove_component : Registry → Text → Registry
remove_component r name = record r { components = remove name r.components }

unfoldable pub set_draining : Registry → Bool → Registry
set_draining r draining = record r { draining = draining }

unfoldable pub on_push : Registry → ℕ → Registry
on_push r l = record r { listeners = r.listeners ++ (l ∷ []) }

-- `c.scope & scope != 0`.
abbrev pub matches : Scope → Component → Bool
matches scope c =
    c.scope.readiness && scope.readiness
    || (c.scope.liveness && scope.liveness || c.scope.unnamed && scope.unnamed)

-- A status that was left empty is DOWN.
status_or_down : Status → Status
status_or_down (other []) = down
status_or_down (other (c ∷ cs)) = other (c ∷ cs)
status_or_down up = up
status_or_down degraded = degraded
status_or_down down = down

unfoldable pub settled : CheckResult → CheckResult
unfolding status_or_down
settled res = record res { status = status_or_down res.status }

-- The result of one component in a probe.
unfoldable pub outcome : (Text → CheckResult) → Text → Component → CheckResult
unfolding settled
outcome checked name c = settled (if c.has_checker then checked name else c.pushed)

-- The loop that collects the results.
unfoldable pub collect : (Text → CheckResult) → Scope → Dict Component → Report → Report
unfolding outcome
collect checked scope [] rep = rep
collect checked scope ((name, c) ∷ cs) rep =
    let res = outcome checked name c in
    let with_it = collect checked scope cs (record {
      status = worse rep.status res.status;
      components = insert name res rep.components;
    }) in
    let without = collect checked scope cs rep in if matches scope c then with_it else without

unfoldable pub run : Registry → (Text → CheckResult) → Scope → Report
unfolding collect
run r checked scope = collect checked scope r.components (record { status = up; components = [] })

abbrev pub shutting_down : CheckResult
shutting_down = record { status = down; details = []; error = codes "instance is shutting down" }

drained : Bool → Report → Report
drained false rep = rep
drained true rep = record {
  status = down;
  components = insert (codes "shutdown") shutting_down rep.components;
}

unfoldable pub ready : Registry → (Text → CheckResult) → Report
unfolding drained
ready r checked = drained r.draining (run r checked readiness_scope)

unfoldable pub live : Registry → (Text → CheckResult) → Report
live r checked = run r checked liveness_scope

unfoldable pub health : Registry → (Text → CheckResult) → Report
unfolding drained
health r checked = drained r.draining (run r checked (both readiness_scope liveness_scope))

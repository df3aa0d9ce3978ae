-- ===== src/Client/Serving/Routes.antt =====
-- http.go: with a configuration that passed the validation, each health endpoint answers for itself.
use consulx.Prelude.{
  [], ◌∷◌, Option, none, some, Text, text_eq, text_eq_iff, if◌then◌else◌, is_empty, ◌≡◌, refl,
  arith,
}
use consulx.Prelude.Dict.{Dict, lookup, lookup-insert}
use consulx.Config.{HealthEndpoints}
use consulx.Config.Validate.Checks.{IsEndpoints}
use consulx.Health.{CheckResult}
use consulx.Health.Registry.{Registry}
use consulx.Health.Handler.{HandlerOptions, Method, Response, handle}
use consulx.Client.Serving.{
  Endpoints, Probe, ask_ready, ask_live, ask_health, health_mux, answer, serve, route,
}

-- The endpoints of the configuration, as the client reads them.
abbrev pub served_endpoints : HealthEndpoints → Endpoints
served_endpoints e = record { health = e.health; live = e.live; ready = e.ready }

lookup-route :
    (path key : Text) (p : Probe) (m : Dict Probe)
    → lookup path (route key p m)
      ≡ (if is_empty key then lookup path m else if text_eq key path then some p else lookup path m)
unfolding route
lookup-route path [] p m = refl
lookup-route path (c ∷ cs) p m = lookup-insert (c ∷ cs) path p m

-- The endpoint that a path is, if it is one.
abbrev pub asked : HealthEndpoints → Text → Option Probe
asked e path =
    if is_empty path
    then none
    else if text_eq e.health path
    then some ask_health
    else if text_eq e.live path
    then some ask_live
    else if text_eq e.ready path
    then some ask_ready
    else none

health_mux-asked :
    (e : HealthEndpoints) (path : Text)
    → IsEndpoints e
    → lookup path (health_mux (served_endpoints e)) ≡ asked e path
unfolding health_mux lookup
health_mux-asked e path ok =
    rw (lookup-route path e.ready ask_ready (route e.live ask_live (route e.health ask_health [])))
      (rw (lookup-route path e.live ask_live (route e.health ask_health [])) (
        rw (lookup-route path e.health ask_health []) (
          ground (
            arith,
            text_eq_iff e.health path,
            text_eq_iff e.live path,
            text_eq_iff e.ready path,
            text_eq_iff e.health e.live,
            text_eq_iff e.health e.ready,
            text_eq_iff e.live e.ready,
            ok.health_live,
            ok.health_ready,
            ok.live_ready,
          ))))

abbrev pub answered :
    HandlerOptions → Registry → (Text → CheckResult) → Method → Option Probe → Option Response
answered opts r checked m none = none
answered opts r checked m (some p) = some (handle opts m (answer r checked p))

-- With endpoints that the validation accepts, the wrapped server answers each endpoint's path with that
-- endpoint's own report, and leaves every other path to the application's handler.
pub serve-asked :
    (e : HealthEndpoints) (opts : HandlerOptions) (r : Registry) (checked : Text → CheckResult)
    (path : Text) (m : Method)
    → IsEndpoints e
    → serve (served_endpoints e) opts r checked path m ≡ answered opts r checked m (asked e path)
unfolding serve
serve-asked e opts r checked path m ok =
    rw (health_mux-asked e path ok, serve) (at_probe (asked e path))
  where
    at_probe :
        (o : Option Probe)
        → elim o [ none ↦ none | some p ↦ some (handle opts m (answer r checked p)) ]
          ≡ answered opts r checked m o
    at_probe none = refl
    at_probe (some p) = refl

-- ===== src/Client/Serving.antt =====
-- http.go: the health endpoints in front of the application's handler, and the registered scheme.
pub mod Agreement
pub mod Routes
use consulx.Prelude.{
  ℕ, Bool, true, false, not, ◌&&◌, [], Option, none, some, Text, codes, if◌then◌else◌, is_empty,
}
use consulx.Prelude.Dict.{Dict, lookup, insert}
use consulx.Health.{CheckResult}
use consulx.Health.Registry.{Registry, Report, ready, live, health}
use consulx.Health.Handler.{HandlerOptions, Method, Response, handle}

pub record Endpoints : Type 0 where
  pub health : Text
  pub live : Text
  pub ready : Text

pub data Probe : Type 0 where
  ask_health ask_live ask_ready : Probe

route : Text → Probe → Dict Probe → Dict Probe
route path p routes = if is_empty path then routes else insert path p routes

-- `healthMux`.
unfoldable pub health_mux : Endpoints → Dict Probe
unfolding route
health_mux e = route e.ready ask_ready (route e.live ask_live (route e.health ask_health []))

unfoldable pub answer : Registry → (Text → CheckResult) → Probe → Report
answer r checked ask_health = health r checked
answer r checked ask_live = live r checked
answer r checked ask_ready = ready r checked

-- `ServeHTTP`: `none` is the handler behind the endpoints.
unfoldable pub serve :
    Endpoints → HandlerOptions → Registry → (Text → CheckResult) → Text → Method → Option Response
unfolding health_mux answer
serve e opts r checked path m = elim (lookup path (health_mux e)) [
  | none ↦ none
  | some p ↦ some (handle opts m (answer r checked p))
]

-- `has_tls` is whether there is a server with a TLS configuration.
unfoldable pub detect_scheme : Text → Bool → Text
detect_scheme configured has_tls =
    if not (is_empty configured)
    then configured
    else if has_tls
    then codes "https"
    else codes "http"

-- `injectHealth`: whether the server's handler is wrapped.
unfoldable pub inject_health : Bool → Bool → Bool
inject_health has_server enabled = has_server && enabled

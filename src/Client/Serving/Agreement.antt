-- ===== src/Client/Serving/Agreement.antt =====
-- Consul learns the same from an HTTP check as from a heartbeat.
use consulx.Prelude.{
  ℕ, false, ◌&&◌, [], Option, none, some, Text, codes, leb, ltb, ◌==◌, if◌then◌else◌, is_empty, ◌≡◌,
  refl, ap,
}
use consulx.Prelude.Dict.{lookup, lookup-insert_self}
use consulx.Health.{Status, up, degraded, down, other, CheckResult}
use consulx.Health.Registry.{Registry, ready}
use consulx.Health.Handler.{HandlerOptions, get, Response, status_code, handle}
use consulx.Client.Failures.{ttl_status}
use consulx.Client.Serving.{
  Endpoints, ask_ready, ask_live, ask_health, health_mux, answer, serve, route,
}

-- What Consul's HTTP check makes of a status code: 2xx is passing, 429 is a warning, and anything else
-- is critical.
unfoldable pub consul_status : ℕ → Text
consul_status code =
    if leb 200 code && ltb code 300
    then codes "passing"
    else if code == 429
    then codes "warning"
    else codes "critical"

status_code-ttl_status : (s : Status) → consul_status (status_code s 0) ≡ ttl_status s
unfolding consul_status status_code ttl_status
status_code-ttl_status up = refl
status_code-ttl_status degraded = refl
status_code-ttl_status down = refl
status_code-ttl_status (other t) = refl

health_mux-ready :
    (e : Endpoints) → is_empty e.ready ≡ false → lookup e.ready (health_mux e) ≡ some ask_ready
unfolding health_mux route
health_mux-ready e h =
    rw h
      (lookup-insert_self e.ready ask_ready (route e.live ask_live (route e.health ask_health [])))

-- The status that Consul's HTTP check takes from the answer of the Ready endpoint.
abbrev pub checked_status : Option Response → Option Text
checked_status none = none
checked_status (some r) = some (consul_status r.code)

-- A GET of the Ready endpoint gives Consul's HTTP check the status that a heartbeat would send at the
-- same moment, also where another endpoint has the same path. The endpoint is on, and the code for
-- DEGRADED is left at its default.
pub serve-ttl_status :
    (e : Endpoints) (opts : HandlerOptions) (r : Registry) (checked : Text → CheckResult)
    → is_empty e.ready ≡ false
    → opts.degraded_status_code ≡ 0
    → checked_status (serve e opts r checked e.ready get)
      ≡ some (ttl_status (ready r checked).status)
unfolding serve answer handle
serve-ttl_status e opts r checked h d =
    rw (health_mux-ready e h, serve, d) (ap some (status_code-ttl_status (ready r checked).status))

-- ===== src/Health/Handler.antt =====
-- health/handler.go: the answer to one HTTP request. The body is the report; its JSON is not modelled.
use consulx.Prelude.{ℕ, Bool, true, false, [], Option, none, some, ◌==◌, if◌then◌else◌}
use consulx.Health.{Status, up, degraded, down, other}
use consulx.Health.Registry.{Report}

pub record HandlerOptions : Type 0 where
  pub hide_details : Bool
  pub degraded_status_code : ℕ

unfoldable pub status_code : Status → ℕ → ℕ
status_code up d = 200
status_code degraded d = if d == 0 then 429 else d
status_code down d = 503
status_code (other t) d = 503

pub data Method : Type 0 where
  get head another : Method

-- `allow` is whether the answer names the methods that are allowed.
pub record Response : Type 0 where
  pub code : ℕ
  pub allow : Bool
  pub body : Option Report

shown : HandlerOptions → Report → Report
shown opts rep = if opts.hide_details then record rep { components = [] } else rep

unfoldable pub handle : HandlerOptions → Method → Report → Response
unfolding shown status_code
handle opts another rep = record { code = 405; allow = true; body = none }
handle opts head rep = record {
  code = status_code rep.status opts.degraded_status_code;
  allow = false;
  body = none;
}
handle opts get rep = record {
  code = status_code rep.status opts.degraded_status_code;
  allow = false;
  body = some (shown opts rep);
}

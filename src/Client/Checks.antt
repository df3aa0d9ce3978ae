-- ===== src/Client/Checks.antt =====
-- registration.go, buildCheck: the health check that is registered with the service.
use consulx.Prelude.{
  ℕ, Bool, false, List, [], ◌∷◌, ◌++◌, Option, none, some, Text, codes, ltb, if◌then◌else◌,
  is_empty,
}
use consulx.Prelude.Decimal.{itoa}
use consulx.Prelude.Dict.{Dict}
use consulx.Discovery.Instance.{join_host_port}
use consulx.Health.{Status}
use consulx.Client.Failures.{ttl_status}
use consulx.Client.Endpoints.{Location}

pub data CheckType : Type 0 where
  check_http check_tcp check_grpc check_ttl check_none : CheckType

-- The part of `HealthConfig` that the check is made of.
pub record HealthConfig : Type 0 where
  pub check : CheckType
  pub check_path : Text
  pub interval : ℕ
  pub timeout : ℕ
  pub ttl : ℕ
  pub deregister_after : ℕ
  pub method : Text
  pub header : Dict (List Text)
  pub body : Text
  pub tls_server_name : Text
  pub tls_skip_verify : Bool
  pub use_tls : Bool
  pub grpc_service : Text
  pub success_before_passing : ℕ
  pub failures_before_warning : ℕ
  pub failures_before_critical : ℕ

-- `api.AgentServiceCheck`, the fields that ConsulX sets; a text that is not set is empty.
pub record AgentCheck : Type 0 where
  pub check_id : Text
  pub name : Text
  pub success_before_passing : ℕ
  pub failures_before_warning : ℕ
  pub failures_before_critical : ℕ
  pub deregister_after : Text
  pub http : Text
  pub method : Text
  pub header : Dict (List Text)
  pub body : Text
  pub tcp : Text
  pub tcp_use_tls : Bool
  pub grpc : Text
  pub grpc_use_tls : Bool
  pub tls_server_name : Text
  pub tls_skip_verify : Bool
  pub ttl : Text
  pub status : Text
  pub interval : Text
  pub timeout : Text

abbrev pub check_id_of : Text → Text
check_id_of service_id = codes "service:" ++ service_id

abbrev pub check_name : CheckType → Text
check_name check_http = codes "http"
check_name check_tcp = codes "tcp"
check_name check_grpc = codes "grpc"
check_name check_ttl = codes "ttl"
check_name check_none = codes "none"

-- The check before the `switch`.
blank_check : (ℕ → Text) → Text → HealthConfig → Text → AgentCheck
blank_check duration name h service_id = record {
  check_id = check_id_of service_id;
  name = name ++ (b' ' ∷ (check_name h.check ++ codes " check"));
  success_before_passing = h.success_before_passing;
  failures_before_warning = h.failures_before_warning;
  failures_before_critical = h.failures_before_critical;
  deregister_after = if ltb 0 h.deregister_after then duration h.deregister_after else [];
  http = [];
  method = [];
  header = [];
  body = [];
  tcp = [];
  tcp_use_tls = false;
  grpc = [];
  grpc_use_tls = false;
  tls_server_name = [];
  tls_skip_verify = false;
  ttl = [];
  status = [];
  interval = [];
  timeout = [];
}

paced : (ℕ → Text) → HealthConfig → AgentCheck → AgentCheck
paced duration h c = record c { interval = duration h.interval; timeout = duration h.timeout }

secured : HealthConfig → AgentCheck → AgentCheck
secured h c = record c { tls_server_name = h.tls_server_name; tls_skip_verify = h.tls_skip_verify }

-- The `switch`; `ready` is the status of the readiness probe.
typed_check :
    (ℕ → Text) → HealthConfig → Status → Location → AgentCheck → CheckType → Option AgentCheck
unfolding paced secured
typed_check duration h ready loc c check_none = none
typed_check duration h ready loc c check_ttl =
    some (record c { ttl = duration h.ttl; status = ttl_status ready })
typed_check duration h ready loc c check_http =
    let host_port = join_host_port loc.address (itoa loc.port) in
    some (
      paced duration h (
        secured h (record c {
          http = loc.scheme ++ (codes "://" ++ (host_port ++ h.check_path));
          method = h.method;
          header = h.header;
          body = h.body;
        })))
typed_check duration h ready loc c check_tcp = some (
    paced duration h (
      secured h
        (record c { tcp = join_host_port loc.address (itoa loc.port); tcp_use_tls = h.use_tls })))
typed_check duration h ready loc c check_grpc =
    let host_port = join_host_port loc.address (itoa loc.port) in
    some (
      paced duration h (
        secured h (record c {
          grpc =
              if is_empty h.grpc_service then host_port else host_port ++ (b'/' ∷ h.grpc_service);
          grpc_use_tls = h.use_tls;
        })))

unfoldable pub build_check :
    (ℕ → Text) → Text → HealthConfig → Status → Text → Location → Option AgentCheck
unfolding typed_check blank_check
build_check duration name h ready service_id loc =
    typed_check duration h ready loc (blank_check duration name h service_id) h.check

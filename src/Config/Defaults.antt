-- ===== src/Config/Defaults.antt =====
-- config.go: the constants, and `applyDefaults`, which fills what no layer has set.
pub mod Kept
pub mod Valid
use consulx.Prelude.{
  Bool, true, false, ◌&&◌, Option, none, some, Text, codes, text_eq, if◌then◌else◌, is_empty, ℕ,
  ◌*◌, [], not,
}
use consulx.Prelude.Int.{ℤ, pos, is_zero_ℤ, min_ℤ}
use consulx.Config.{
  HealthEndpoints, ConsulConfig, ServiceConfig, HealthConfig, RetryConfig, LifecycleConfig, Config,
  id_hostname_port, check_auto, check_http, check_ttl, one,
}
use consulx.Config.Overlay.{endpoints_zero}

-- A duration in nanoseconds.
abbrev pub seconds : ℕ → ℤ
seconds n = pos (n * 1000000000)

abbrev pub default_consul_address : Text
default_consul_address = codes "127.0.0.1:8500"

abbrev pub max_wait_time : ℤ
max_wait_time = seconds 600

abbrev pub default_check_timeout : ℤ
default_check_timeout = seconds 5

abbrev pub default_deregister_critical_after : ℤ
default_deregister_critical_after = seconds 60

abbrev pub min_deregister_critical_after : ℤ
min_deregister_critical_after = seconds 60

abbrev pub default_endpoints : HealthEndpoints
default_endpoints = record {
  health = codes "/health";
  live = codes "/health/live";
  ready = codes "/health/ready";
}

abbrev pub filled : Text → Text → Text
filled v default = if is_empty v then default else v

abbrev pub filled_int : ℤ → ℤ → ℤ
filled_int v default = if is_zero_ℤ v then default else v

abbrev pub filled_bool : Option Bool → Bool → Option Bool
filled_bool none default = some default
filled_bool (some b) default = some b

unfoldable pub consul_defaults : ConsulConfig → ConsulConfig
consul_defaults c = record c {
  address = filled c.address default_consul_address;
  dial_timeout = filled_int c.dial_timeout (seconds 5);
  request_timeout = filled_int c.request_timeout (seconds 10);
  wait_time = filled_int c.wait_time (seconds 300);
}

-- `cmpOr`.
unfoldable pub cmp_or : Text → Text → Text
cmp_or a b = if is_empty a then b else a

-- The endpoints, and what the check is: its path, and its type where that is "auto".
unfoldable pub endpoints_of : Bool → HealthEndpoints → HealthEndpoints
endpoints_of enabled e = if enabled && endpoints_zero.is_zero e then default_endpoints else e

unfoldable pub path_default : Bool → HealthEndpoints → Text → Text
unfolding cmp_or
path_default enabled e path = if is_empty path && enabled then cmp_or e.ready e.health else path

unfoldable pub check_default : Text → Text → Text
check_default check path =
    let asked = filled check check_auto in
    if text_eq asked check_auto then (if is_empty path then check_ttl else check_http) else asked

unfoldable pub timeout_default : ℤ → ℤ → ℤ
timeout_default timeout interval = filled_int timeout (min_ℤ default_check_timeout interval)

unfoldable pub health_defaults : HealthConfig → HealthConfig
health_defaults h =
    let endpoints = endpoints_of h.enabled h.endpoints in
    let path = path_default h.enabled endpoints h.check_path in
    let interval = filled_int h.interval (seconds 10) in
    record h {
      endpoints = endpoints;
      check = check_default h.check path;
      check_path = path;
      interval = interval;
      timeout = timeout_default h.timeout interval;
      ttl = filled_int h.ttl (seconds 30);
      deregister_critical_service_after =
          filled_int h.deregister_critical_service_after default_deregister_critical_after;
    }

unfoldable pub retry_defaults : RetryConfig → RetryConfig
retry_defaults r = record r {
  initial_delay = filled_int r.initial_delay (pos 500000000);
  max_delay = filled_int r.max_delay (seconds 30);
  multiplier = filled_int r.multiplier (pos (2 * one));
}

unfoldable pub lifecycle_defaults : LifecycleConfig → LifecycleConfig
lifecycle_defaults l = record l {
  auto_register = filled_bool l.auto_register true;
  deregister_on_shutdown = filled_bool l.deregister_on_shutdown true;
  start_timeout = filled_int l.start_timeout (seconds 30);
  shutdown_timeout = filled_int l.shutdown_timeout (seconds 10);
}

unfoldable pub apply_defaults : Config → Config
unfolding consul_defaults health_defaults retry_defaults lifecycle_defaults
apply_defaults c = record c {
  consul = consul_defaults c.consul;
  service = record c.service { id_strategy = filled c.service.id_strategy id_hostname_port };
  health = health_defaults c.health;
  retry = retry_defaults c.retry;
  lifecycle = lifecycle_defaults c.lifecycle;
}

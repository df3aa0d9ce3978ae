-- ===== src/Config/Overlay.antt =====
-- config.go, `overlay` of a configuration and of its sections: a layer is copied over another, but for
-- the fields that it leaves at zero.
pub mod Layers
pub mod Fields
pub mod Laws
pub mod Again
use consulx.Prelude.{
  ℕ, Bool, true, false, ◌&&◌, List, [], ◌∷◌, Option, none, some, Text, if◌then◌else◌, is_empty,
  ◌==◌,
}
use consulx.Prelude.Dict.{Dict, insert}
use consulx.Prelude.Int.{ℤ, pos, is_zero_ℤ}
use consulx.Config.{
  TlsConfig, ConsulConfig, KvConfig, ServiceConfig, HealthEndpoints, HealthConfig, RetryConfig,
  LifecycleConfig, Config,
}

-- The types whose zero value `set` compares with.
pub record HasZero (A : Type 0) : Type 0 where
  pub zero_value : A
  pub is_zero : A → Bool

instance abbrev pub text_zero : HasZero (List ℕ)
text_zero = record { zero_value = []; is_zero = is_empty }

instance abbrev pub bool_zero : HasZero Bool
bool_zero = record { zero_value = false; is_zero = λ b. if b then false else true }

instance abbrev pub int_zero : HasZero ℤ
int_zero = record { zero_value = pos 0; is_zero = is_zero_ℤ }

instance abbrev pub endpoints_zero : HasZero HealthEndpoints
endpoints_zero = record {
  zero_value = record { health = []; live = []; ready = [] };
  is_zero = λ e. is_empty e.health && (is_empty e.live && is_empty e.ready);
}

unfoldable pub set : {A : Type 0} ⦃z : HasZero A⦄ → A → A → A
set ⦃z⦄ dst v = if z.is_zero v then dst else v

-- `setSlice`, and the assignments of pointers that are not nil.
unfoldable pub set_slice : {A : Type 0} → Option A → Option A → Option A
set_slice dst none = dst
set_slice dst (some v) = some v

module _ {V : Type 0} where
  -- `maps.Copy`.
  unfoldable pub copy : Dict V → Dict V → Dict V
  copy [] dst = dst
  copy ((k, v) ∷ src) dst = copy src (insert k v dst)

  abbrev pub entries : Option (Dict V) → Dict V
  entries none = []
  entries (some m) = m

  unfoldable pub merge_map : Option (Dict V) → Option (Dict V) → Option (Dict V)
  merge_map dst none = dst
  merge_map dst (some src) = some (copy src (entries dst))

unfoldable pub overlay_tls : TlsConfig → TlsConfig → TlsConfig
overlay_tls c s = record {
  enabled = set c.enabled s.enabled;
  ca_file = set c.ca_file s.ca_file;
  ca_path = set c.ca_path s.ca_path;
  ca_pem = set_slice c.ca_pem s.ca_pem;
  cert_file = set c.cert_file s.cert_file;
  key_file = set c.key_file s.key_file;
  cert_pem = set_slice c.cert_pem s.cert_pem;
  key_pem = set_slice c.key_pem s.key_pem;
  server_name = set c.server_name s.server_name;
  insecure_skip_verify = set c.insecure_skip_verify s.insecure_skip_verify;
}

unfoldable pub overlay_consul : ConsulConfig → ConsulConfig → ConsulConfig
overlay_consul c s = record {
  address = set c.address s.address;
  scheme = set c.scheme s.scheme;
  datacenter = set c.datacenter s.datacenter;
  namespace = set c.namespace s.namespace;
  partition = set c.partition s.partition;
  token = set c.token s.token;
  token_file = set c.token_file s.token_file;
  http_auth = set c.http_auth s.http_auth;
  tls = overlay_tls c.tls s.tls;
  dial_timeout = set c.dial_timeout s.dial_timeout;
  request_timeout = set c.request_timeout s.request_timeout;
  wait_time = set c.wait_time s.wait_time;
}

unfoldable pub overlay_service : ServiceConfig → ServiceConfig → ServiceConfig
overlay_service c s = record {
  name = set c.name s.name;
  id = set c.id s.id;
  id_strategy = set c.id_strategy s.id_strategy;
  address = set c.address s.address;
  address_env = set c.address_env s.address_env;
  allow_loopback = set c.allow_loopback s.allow_loopback;
  prefer_ipv6 = set c.prefer_ipv6 s.prefer_ipv6;
  port = set c.port s.port;
  ports = set_slice c.ports s.ports;
  scheme = set c.scheme s.scheme;
  tags = set_slice c.tags s.tags;
  meta = merge_map c.meta s.meta;
  disable_auto_meta = set c.disable_auto_meta s.disable_auto_meta;
  version = set c.version s.version;
  environment = set c.environment s.environment;
  zone = set c.zone s.zone;
  tagged_addresses = merge_map c.tagged_addresses s.tagged_addresses;
  weights = set_slice c.weights s.weights;
  enable_tag_override = set c.enable_tag_override s.enable_tag_override;
  namespace = set c.namespace s.namespace;
  partition = set c.partition s.partition;
}

unfoldable pub overlay_health : HealthConfig → HealthConfig → HealthConfig
overlay_health c s = record {
  enabled = set c.enabled s.enabled;
  endpoints = set c.endpoints s.endpoints;
  hide_details = set c.hide_details s.hide_details;
  degraded_status_code = set c.degraded_status_code s.degraded_status_code;
  check = set c.check s.check;
  check_path = set c.check_path s.check_path;
  interval = set c.interval s.interval;
  timeout = set c.timeout s.timeout;
  ttl = set c.ttl s.ttl;
  deregister_critical_service_after =
      set c.deregister_critical_service_after s.deregister_critical_service_after;
  method = set c.method s.method;
  header = merge_map c.header s.header;
  body = set c.body s.body;
  tls_server_name = set c.tls_server_name s.tls_server_name;
  tls_skip_verify = set c.tls_skip_verify s.tls_skip_verify;
  use_tls = set c.use_tls s.use_tls;
  grpc_service = set c.grpc_service s.grpc_service;
  success_before_passing = set c.success_before_passing s.success_before_passing;
  failures_before_warning = set c.failures_before_warning s.failures_before_warning;
  failures_before_critical = set c.failures_before_critical s.failures_before_critical;
}

unfoldable pub overlay_retry : RetryConfig → RetryConfig → RetryConfig
overlay_retry c s = record {
  initial_delay = set c.initial_delay s.initial_delay;
  max_delay = set c.max_delay s.max_delay;
  multiplier = set c.multiplier s.multiplier;
  disable_jitter = set c.disable_jitter s.disable_jitter;
  max_attempts = set c.max_attempts s.max_attempts;
  max_elapsed = set c.max_elapsed s.max_elapsed;
}

unfoldable pub overlay_kv : KvConfig → KvConfig → KvConfig
overlay_kv c s = record {
  name = set c.name s.name;
  profiles = set_slice c.profiles s.profiles;
  prefix = set c.prefix s.prefix;
  default_context = set c.default_context s.default_context;
  profile_separator = set c.profile_separator s.profile_separator;
  format = set c.format s.format;
  data_key = set c.data_key s.data_key;
  error_unused = set c.error_unused s.error_unused;
}

unfoldable pub overlay_lifecycle : LifecycleConfig → LifecycleConfig → LifecycleConfig
overlay_lifecycle c s = record {
  auto_register = set_slice c.auto_register s.auto_register;
  deregister_on_shutdown = set_slice c.deregister_on_shutdown s.deregister_on_shutdown;
  fail_fast = set c.fail_fast s.fail_fast;
  start_timeout = set c.start_timeout s.start_timeout;
  shutdown_timeout = set c.shutdown_timeout s.shutdown_timeout;
  drain_delay = set c.drain_delay s.drain_delay;
}

unfoldable pub overlay : Config → Config → Config
overlay c src = record {
  consul = overlay_consul c.consul src.consul;
  service = overlay_service c.service src.service;
  health = overlay_health c.health src.health;
  retry = overlay_retry c.retry src.retry;
  lifecycle = overlay_lifecycle c.lifecycle src.lifecycle;
  kv = overlay_kv c.kv src.kv;
}

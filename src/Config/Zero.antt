-- ===== src/Config/Zero.antt =====
-- config.go: the zero values of the configuration and of its sections.
use consulx.Prelude.{false, [], none}
use consulx.Prelude.Int.{pos}
use consulx.Config.{
  TlsConfig, ConsulConfig, KvConfig, ServiceConfig, HealthEndpoints, HealthConfig, RetryConfig,
  LifecycleConfig, Config,
}

-- The zero values of the sections.
abbrev pub no_tls : TlsConfig
no_tls = record {
  enabled = false;
  ca_file = [];
  ca_path = [];
  ca_pem = none;
  cert_file = [];
  key_file = [];
  cert_pem = none;
  key_pem = none;
  server_name = [];
  insecure_skip_verify = false;
}

abbrev pub no_consul : ConsulConfig
no_consul = record {
  address = [];
  scheme = [];
  datacenter = [];
  namespace = [];
  partition = [];
  token = [];
  token_file = [];
  http_auth = [];
  tls = no_tls;
  dial_timeout = pos 0;
  request_timeout = pos 0;
  wait_time = pos 0;
}

abbrev pub no_service : ServiceConfig
no_service = record {
  name = [];
  id = [];
  id_strategy = [];
  address = [];
  address_env = [];
  allow_loopback = false;
  prefer_ipv6 = false;
  port = pos 0;
  ports = none;
  scheme = [];
  tags = none;
  meta = none;
  disable_auto_meta = false;
  version = [];
  environment = [];
  zone = [];
  tagged_addresses = none;
  weights = none;
  enable_tag_override = false;
  namespace = [];
  partition = [];
}

abbrev pub no_endpoints : HealthEndpoints
no_endpoints = record { health = []; live = []; ready = [] }

abbrev pub no_health : HealthConfig
no_health = record {
  enabled = false;
  endpoints = no_endpoints;
  hide_details = false;
  degraded_status_code = pos 0;
  check = [];
  check_path = [];
  interval = pos 0;
  timeout = pos 0;
  ttl = pos 0;
  deregister_critical_service_after = pos 0;
  method = [];
  header = none;
  body = [];
  tls_server_name = [];
  tls_skip_verify = false;
  use_tls = false;
  grpc_service = [];
  success_before_passing = pos 0;
  failures_before_warning = pos 0;
  failures_before_critical = pos 0;
}

abbrev pub no_retry : RetryConfig
no_retry = record {
  initial_delay = pos 0;
  max_delay = pos 0;
  multiplier = pos 0;
  disable_jitter = false;
  max_attempts = pos 0;
  max_elapsed = pos 0;
}

abbrev pub no_lifecycle : LifecycleConfig
no_lifecycle = record {
  auto_register = none;
  deregister_on_shutdown = none;
  fail_fast = false;
  start_timeout = pos 0;
  shutdown_timeout = pos 0;
  drain_delay = pos 0;
}

abbrev pub no_kv : KvConfig
no_kv = record {
  name = [];
  profiles = none;
  prefix = [];
  default_context = [];
  profile_separator = [];
  format = [];
  data_key = [];
  error_unused = false;
}

abbrev pub no_config : Config
no_config = record {
  consul = no_consul;
  service = no_service;
  health = no_health;
  retry = no_retry;
  lifecycle = no_lifecycle;
  kv = no_kv;
}

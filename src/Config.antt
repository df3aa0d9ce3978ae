-- ===== src/Config.antt =====
-- config.go: the configuration. Durations, counters and ports are integers (a negative value is data
-- that validation meets); a slice or a map that may be nil is an Option; a string type such as
-- CheckType is its text. The backoff multiplier is a float64: a finite one is a whole number of units of
-- 2^-1074, and that number stands for it.
pub mod Address
pub mod Zero
pub mod Overlay
pub mod Defaults
pub mod Validate
pub mod Env
pub mod Options
pub mod Load
pub mod Target
use consulx.Prelude.{ℕ, ◌^◌, ◌*◌, Bool, true, false, List, [], Option, none, some, Text, codes}
use consulx.Prelude.Dict.{Dict}
use consulx.Prelude.Int.{ℤ, pos}

pub record TlsConfig : Type 0 where
  pub enabled : Bool
  pub ca_file : Text
  pub ca_path : Text
  pub ca_pem : Option Text
  pub cert_file : Text
  pub key_file : Text
  pub cert_pem : Option Text
  pub key_pem : Option Text
  pub server_name : Text
  pub insecure_skip_verify : Bool

pub record ConsulConfig : Type 0 where
  pub address : Text
  pub scheme : Text
  pub datacenter : Text
  pub namespace : Text
  pub partition : Text
  pub token : Text
  pub token_file : Text
  pub http_auth : Text
  pub tls : TlsConfig
  pub dial_timeout : ℤ
  pub request_timeout : ℤ
  pub wait_time : ℤ

abbrev pub id_hostname_port : Text
id_hostname_port = codes "hostname-port"

abbrev pub id_random : Text
id_random = codes "random"

-- `KVConfig`.
pub record KvConfig : Type 0 where
  pub name : Text
  pub profiles : Option (List Text)
  pub prefix : Text
  pub default_context : Text
  pub profile_separator : Text
  pub format : Text
  pub data_key : Text
  pub error_unused : Bool

pub record ServicePort : Type 0 where
  pub name : Text
  pub port : ℤ
  pub is_default : Bool

pub record TaggedAddress : Type 0 where
  pub address : Text
  pub port : ℤ

pub record Weights : Type 0 where
  pub passing : ℤ
  pub warning : ℤ

pub record ServiceConfig : Type 0 where
  pub name : Text
  pub id : Text
  pub id_strategy : Text
  pub address : Text
  pub address_env : Text
  pub allow_loopback : Bool
  pub prefer_ipv6 : Bool
  pub port : ℤ
  pub ports : Option (List ServicePort)
  pub scheme : Text
  pub tags : Option (List Text)
  pub meta : Option (Dict Text)
  pub disable_auto_meta : Bool
  pub version : Text
  pub environment : Text
  pub zone : Text
  pub tagged_addresses : Option (Dict TaggedAddress)
  pub weights : Option Weights
  pub enable_tag_override : Bool
  pub namespace : Text
  pub partition : Text

abbrev pub check_auto : Text
check_auto = codes "auto"

abbrev pub check_http : Text
check_http = codes "http"

abbrev pub check_tcp : Text
check_tcp = codes "tcp"

abbrev pub check_ttl : Text
check_ttl = codes "ttl"

abbrev pub check_grpc : Text
check_grpc = codes "grpc"

abbrev pub check_none : Text
check_none = codes "none"

pub record HealthEndpoints : Type 0 where
  pub health : Text
  pub live : Text
  pub ready : Text

pub record HealthConfig : Type 0 where
  pub enabled : Bool
  pub endpoints : HealthEndpoints
  pub hide_details : Bool
  pub degraded_status_code : ℤ
  pub check : Text
  pub check_path : Text
  pub interval : ℤ
  pub timeout : ℤ
  pub ttl : ℤ
  pub deregister_critical_service_after : ℤ
  pub method : Text
  pub header : Option (Dict (List Text))
  pub body : Text
  pub tls_server_name : Text
  pub tls_skip_verify : Bool
  pub use_tls : Bool
  pub grpc_service : Text
  pub success_before_passing : ℤ
  pub failures_before_warning : ℤ
  pub failures_before_critical : ℤ

pub record RetryConfig : Type 0 where
  pub initial_delay : ℤ
  pub max_delay : ℤ
  pub multiplier : ℤ
  pub disable_jitter : Bool
  pub max_attempts : ℤ
  pub max_elapsed : ℤ

-- `*bool` is an Option.
pub record LifecycleConfig : Type 0 where
  pub auto_register : Option Bool
  pub deregister_on_shutdown : Option Bool
  pub fail_fast : Bool
  pub start_timeout : ℤ
  pub shutdown_timeout : ℤ
  pub drain_delay : ℤ

pub record Config : Type 0 where
  pub consul : ConsulConfig
  pub service : ServiceConfig
  pub health : HealthConfig
  pub retry : RetryConfig
  pub lifecycle : LifecycleConfig
  pub kv : KvConfig

-- The multiplier 1.0.
unfoldable pub one : ℕ
one = 2 ^ 1074

-- ===== src/Config/Validate.antt =====
-- config.go, `validate`: every problem of a configuration whose defaults are applied, in order. A
-- ConfigError is a constructor for its field and its reason. `url_ok` is whether net/url parses
-- "http://" with a host behind it.
pub mod Ports
pub mod Sections
pub mod Service
pub mod Checks
pub mod Sound
use consulx.Prelude.{
  ℕ, suc, ◌+◌, ◌-◌, ◌*◌, Bool, true, false, ◌&&◌, ◌||◌, not, List, [], ◌∷◌, ◌++◌, Option, none,
  some, Text, codes, text_eq, ltb, leb, ◌==◌, if◌then◌else◌, is_empty, any_of, length, drop,
}
use consulx.Prelude.Dict.{Dict}
use consulx.Prelude.Int.{ℤ, pos, negsuc, ltb_ℤ, is_zero_ℤ}
use consulx.NetAddr.{has_prefix}
use consulx.Config.{
  ServicePort, HealthEndpoints, ConsulConfig, ServiceConfig, HealthConfig, RetryConfig,
  LifecycleConfig, Config, Weights, id_hostname_port, id_random, check_http, check_tcp, check_ttl,
  check_grpc, check_none, one,
}
use consulx.Config.Overlay.{entries}
use consulx.Config.Defaults.{max_wait_time, min_deregister_critical_after, seconds}
use consulx.Config.Address.{
  AddressProblem, socket_path_empty, host_empty, host_invalid, scheme_unsupported,
}
use consulx.Config.Address.{validate_consul_address}

pub data Problem : Type 0 where
  consul_address : AddressProblem → Problem
  consul_scheme dial_timeout request_timeout wait_time : Problem
  tls_files tls_pems http_auth : Problem
  name_required name_form id_form id_strategy port scheme : Problem
  ports_names ports_default ports_exclusive : Problem
  ports_range : Text → Problem
  meta_pairs meta_key_length : Problem
  meta_reserved meta_characters meta_value : Text → Problem
  weights : Problem
  check check_path_required check_path_form : Problem
  endpoint_form endpoint_twice : Text → Problem
  degraded_status_code interval timeout ttl deregister_after flap_damping : Problem
  retry_delays retry_multiplier retry_limits : Problem
  kv_format lifecycle_timeouts : Problem

-- The problems of the tests that fail.
unfoldable pub faults : List (Bool × Problem) → List Problem
faults [] = []
faults ((test, p) ∷ tests) = let rest = faults tests in if test then p ∷ rest else rest

unfoldable pub address_faults : Option AddressProblem → List Problem
address_faults none = []
address_faults (some p) = consul_address p ∷ []

abbrev pub is_scheme : Text → Bool
is_scheme s = is_empty s || (text_eq s (codes "http") || text_eq s (codes "https"))

abbrev pub differ : Bool → Bool → Bool
differ a b = if a then not b else b

abbrev pub content : Option Text → Text
content none = []
content (some t) = t

unfoldable pub consul_tests : ConsulConfig → List (Bool × Problem)
consul_tests c =
    (not (is_scheme c.scheme), consul_scheme)
    ∷ (ltb_ℤ c.dial_timeout (pos 0), dial_timeout)
    ∷ (ltb_ℤ c.request_timeout (pos 0), request_timeout)
    ∷ (ltb_ℤ c.wait_time (pos 0) || ltb_ℤ max_wait_time c.wait_time, wait_time)
    ∷ (differ (is_empty c.tls.cert_file) (is_empty c.tls.key_file), tls_files)
    ∷ (differ (is_empty (content c.tls.cert_pem)) (is_empty (content c.tls.key_pem)), tls_pems)
    ∷ (not (is_empty c.http_auth) && not (any_of (λ x. x == b':') c.http_auth), http_auth)
    ∷ []

-- The characters that neither a name nor an ID has.
abbrev pub is_delimiter : ℕ → Bool
is_delimiter c = c == b'/' || (c == 32 || (c == 9 || (c == 13 || c == 10)))

unfoldable pub name_tests : Bool → ServiceConfig → List (Bool × Problem)
name_tests auto_register s =
    (auto_register && is_empty s.name, name_required)
    ∷ (any_of is_delimiter s.name, name_form)
    ∷ (any_of is_delimiter s.id, id_form)
    ∷ (not (text_eq s.id_strategy id_hostname_port || text_eq s.id_strategy id_random), id_strategy)
    ∷ (ltb_ℤ s.port (pos 0) || ltb_ℤ (pos 65535) s.port, port)
    ∷ (not (is_scheme s.scheme), scheme)
    ∷ []

abbrev pub port_list : Option (List ServicePort) → List ServicePort
port_list none = []
port_list (some ps) = ps

abbrev pub seen : Text → List Text → Bool
seen t [] = false
seen t (x ∷ xs) = let rest = seen t xs in if text_eq x t then true else rest

-- The loop of `validatePorts`: the names so far, and how many ports are marked.
unfoldable pub ports_from : List Text → ℕ → List ServicePort → List Problem
ports_from names defaults [] = if defaults == 1 then [] else ports_default ∷ []
ports_from names defaults (p ∷ ps) =
    let rest = ports_from (p.name ∷ names) (if p.is_default then suc defaults else defaults) ps in
    if is_empty p.name || seen p.name names
    then ports_names ∷ []
    else if ltb_ℤ p.port (pos 1) || ltb_ℤ (pos 65535) p.port
    then ports_range p.name ∷ rest
    else rest

unfoldable pub validate_ports : List ServicePort → List Problem
validate_ports [] = []
validate_ports (p ∷ ps) = ports_from [] 0 (p ∷ ps)

abbrev pub is_meta_char : ℕ → Bool
is_meta_char c =
    leb b'a' c && leb c b'z'
    || (leb b'A' c && leb c b'Z' || (leb b'0' c && leb c b'9' || (c == b'_' || c == b'-')))

meta_key : Text → List Problem
meta_key k =
    if is_empty k || ltb 128 (length k)
    then meta_key_length ∷ []
    else if has_prefix (codes "consul-") k
    then meta_reserved k ∷ []
    else if any_of (λ c. not (is_meta_char c)) k
    then meta_characters k ∷ []
    else []

unfoldable pub meta_entries : Dict Text → List Problem
unfolding meta_key
meta_entries [] = []
meta_entries ((k, v) ∷ m) =
    meta_key k ++ ((if ltb 512 (length v) then meta_value k ∷ [] else []) ++ meta_entries m)

unfoldable pub validate_meta : Dict Text → List Problem
unfolding meta_entries
validate_meta m = (if ltb 56 (length m) then meta_pairs ∷ [] else []) ++ meta_entries m

unfoldable pub bad_weights : Option Weights → Bool
bad_weights none = false
bad_weights (some w) = ltb_ℤ w.passing (pos 1) || ltb_ℤ w.warning (pos 0)

unfoldable pub validate_service : Bool → ServiceConfig → List Problem
unfolding bad_weights
validate_service auto_register s =
    let ports = port_list s.ports in
    faults (name_tests auto_register s)
    ++ (validate_ports ports
        ++ (faults ((not (is_empty ports) && not (is_zero_ℤ s.port), ports_exclusive) ∷ [])
            ++ (validate_meta (entries s.meta) ++ faults ((bad_weights s.weights, weights) ∷ []))))

abbrev pub check_types : List Text
check_types = check_http ∷ check_tcp ∷ check_ttl ∷ check_grpc ∷ check_none ∷ []

abbrev pub rooted : Text → Bool
rooted [] = false
rooted (c ∷ cs) = c == b'/'

unfoldable pub check_tests : HealthConfig → List (Bool × Problem)
check_tests h =
    (not (seen h.check check_types), check)
    ∷ (text_eq h.check check_http && is_empty h.check_path, check_path_required)
    ∷ (not (is_empty h.check_path) && not (rooted h.check_path), check_path_form)
    ∷ []

-- The loop of `validateEndpoints` over the fields and their paths.
endpoints_from : List Text → List (Text × Text) → List Problem
endpoints_from before [] = []
endpoints_from before ((field, path) ∷ more) =
    let skip = endpoints_from before more in
    let rest = endpoints_from (path ∷ before) more in
    if is_empty path
    then skip
    else faults
        ((not (rooted path), endpoint_form field) ∷ (seen path before, endpoint_twice field) ∷ [])
      ++ rest

unfoldable pub validate_endpoints : HealthEndpoints → List Problem
unfolding endpoints_from
validate_endpoints e = endpoints_from [] (
    (codes "Health.Endpoints.Health", e.health)
    ∷ (codes "Health.Endpoints.Live", e.live)
    ∷ (codes "Health.Endpoints.Ready", e.ready)
    ∷ [])

unfoldable pub health_tests : HealthConfig → List (Bool × Problem)
health_tests h =
    let code = h.degraded_status_code in
    let after = h.deregister_critical_service_after in
    (not (is_zero_ℤ code) && (ltb_ℤ code (pos 200) || ltb_ℤ (pos 599) code), degraded_status_code)
    ∷ (not (ltb_ℤ (pos 0) h.interval), interval)
    ∷ (not (ltb_ℤ (pos 0) h.timeout) || ltb_ℤ h.interval h.timeout, timeout)
    ∷ (ltb_ℤ h.ttl (seconds 1), ttl)
    ∷ (ltb_ℤ (pos 0) after && ltb_ℤ after min_deregister_critical_after, deregister_after)
    ∷ (
      ltb_ℤ h.success_before_passing (pos 0)
          || (ltb_ℤ h.failures_before_warning (pos 0) || ltb_ℤ h.failures_before_critical (pos 0)),
      flap_damping,
    )
    ∷ []

unfoldable pub retry_tests : RetryConfig → List (Bool × Problem)
retry_tests r =
    (ltb_ℤ r.initial_delay (pos 0) || ltb_ℤ r.max_delay r.initial_delay, retry_delays)
    ∷ (ltb_ℤ r.multiplier (pos one), retry_multiplier)
    ∷ (ltb_ℤ r.max_attempts (pos 0) || ltb_ℤ r.max_elapsed (pos 0), retry_limits)
    ∷ []

abbrev pub kv_formats : List Text
kv_formats = [] ∷ codes "keyvalue" ∷ codes "yaml" ∷ codes "json" ∷ []

unfoldable pub end_tests : Config → List (Bool × Problem)
end_tests c =
    (not (seen c.kv.format kv_formats), kv_format)
    ∷ (
      ltb_ℤ c.lifecycle.start_timeout (pos 0) || ltb_ℤ c.lifecycle.shutdown_timeout (pos 0),
      lifecycle_timeouts,
    )
    ∷ []

unfoldable pub problems : (Text → Bool) → Bool → Config → List Problem
unfolding address_faults
problems url_ok auto_register c =
    address_faults (validate_consul_address url_ok c.consul.address)
    ++ (faults (consul_tests c.consul)
        ++ (validate_service auto_register c.service
            ++ (faults (check_tests c.health)
                ++ (validate_endpoints c.health.endpoints
                    ++ (faults (health_tests c.health)
                        ++ (faults (retry_tests c.retry) ++ faults (end_tests c)))))))

-- `none` is the panic at `*c.Lifecycle.AutoRegister`, of a configuration without its defaults.
unfoldable pub dereferenced : (Bool → List Problem) → Option Bool → Option (List Problem)
dereferenced f none = none
dereferenced f (some auto_register) = some (f auto_register)

unfoldable pub validate : (Text → Bool) → Config → Option (List Problem)
unfolding dereferenced
validate url_ok c = dereferenced (λ auto. problems url_ok auto c) c.lifecycle.auto_register

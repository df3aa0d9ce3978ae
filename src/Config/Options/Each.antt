-- ===== src/Config/Options/Each.antt =====
-- options.go, http.go, kv.go and registration.go: the options.
use consulx.Prelude.{ℕ, Bool, true, List, Option, none, some, Text, if◌then◌else◌, is_empty}
use consulx.Prelude.Dict.{Dict}
use consulx.Prelude.Int.{ℤ, pos, ltb_ℤ}
use consulx.Config.{KvConfig, TlsConfig, HealthConfig, HealthEndpoints, RetryConfig, Config}
use consulx.Config.Overlay.{
  overlay, overlay_health, overlay_kv, overlay_retry, copy, entries, endpoints_zero,
}
use consulx.Config.Options.{
  nil_http_client, no_endpoint, nil_retry_policy, negative_drain_delay, nil_metrics, nil_server,
  nil_listener, nil_resolver, nil_registration_hook, applied, refused, ConfigOption, on_consul,
  on_service, on_health, on_lifecycle,
}

-- A Config is an option: `Config.apply`.
unfoldable pub with_config : Config → ConfigOption
with_config c s = applied (record s { cfg = overlay s.cfg c })

unfoldable pub with_consul_address : Text → ConfigOption
with_consul_address addr = on_consul (λ c. record c { address = addr })

unfoldable pub with_datacenter : Text → ConfigOption
with_datacenter dc = on_consul (λ c. record c { datacenter = dc })

unfoldable pub with_namespace : Text → ConfigOption
with_namespace ns = on_consul (λ c. record c { namespace = ns })

unfoldable pub with_partition : Text → ConfigOption
with_partition p = on_consul (λ c. record c { partition = p })

unfoldable pub with_token : Text → ConfigOption
with_token token = on_consul (λ c. record c { token = token })

unfoldable pub with_token_file : Text → ConfigOption
with_token_file path = on_consul (λ c. record c { token_file = path })

unfoldable pub with_tls : TlsConfig → ConfigOption
with_tls tls = on_consul (λ c. record c { tls = record tls { enabled = true } })

unfoldable pub with_request_timeout : ℤ → ConfigOption
with_request_timeout d = on_consul (λ c. record c { request_timeout = d })

unfoldable pub with_http_client : Option ℕ → ConfigOption
with_http_client none s = refused nil_http_client
with_http_client (some client) s = applied (record s { http_client = some client })

unfoldable pub with_api_config : Option ℕ → ConfigOption
with_api_config fn s = applied (record s { api_hook = fn })

unfoldable pub with_service_name : Text → ConfigOption
with_service_name name = on_service (λ c. record c { name = name })

unfoldable pub with_service_id : Text → ConfigOption
with_service_id id = on_service (λ c. record c { id = id })

unfoldable pub with_service_address : Text → ConfigOption
with_service_address addr = on_service (λ c. record c { address = addr })

unfoldable pub with_service_port : ℤ → ConfigOption
with_service_port port = on_service (λ c. record c { port = port })

-- `WithTags`: no arguments are a nil slice.
unfoldable pub with_tags : List Text → ConfigOption
with_tags tags = on_service (λ c. record c { tags = if is_empty tags then none else some tags })

unfoldable pub with_metadata : Dict Text → ConfigOption
with_metadata meta = on_service (λ c. record c { meta = some (copy meta (entries c.meta)) })

unfoldable pub with_health : HealthConfig → ConfigOption
with_health h = on_health (λ c. overlay_health c h)

unfoldable pub with_auto_health : ConfigOption
with_auto_health = on_health (λ c. record c { enabled = true })

unfoldable pub with_health_endpoints : HealthEndpoints → ConfigOption
with_health_endpoints e s =
    if endpoints_zero.is_zero e
    then refused no_endpoint
    else on_health (λ c. record c { enabled = true; endpoints = e }) s

unfoldable pub with_deregister_critical_service_after : ℤ → ConfigOption
with_deregister_critical_service_after d =
    on_health (λ c. record c { deregister_critical_service_after = d })

unfoldable pub with_retry : RetryConfig → ConfigOption
with_retry r s = applied (record s { cfg = record s.cfg { retry = overlay_retry s.cfg.retry r } })

unfoldable pub with_retry_policy : Option ℕ → ConfigOption
with_retry_policy none s = refused nil_retry_policy
with_retry_policy (some p) s = applied (record s { retry = some p })

unfoldable pub with_auto_register : Bool → ConfigOption
with_auto_register enabled = on_lifecycle (λ c. record c { auto_register = some enabled })

unfoldable pub with_fail_fast : Bool → ConfigOption
with_fail_fast enabled = on_lifecycle (λ c. record c { fail_fast = enabled })

unfoldable pub with_shutdown_timeout : ℤ → ConfigOption
with_shutdown_timeout d = on_lifecycle (λ c. record c { shutdown_timeout = d })

unfoldable pub with_drain_delay : ℤ → ConfigOption
with_drain_delay d s =
    if ltb_ℤ d (pos 0)
    then refused negative_drain_delay
    else on_lifecycle (λ c. record c { drain_delay = d }) s

-- `WithLogger`; `discard` is the logger that drops everything.
unfoldable pub with_logger : ℕ → Option ℕ → ConfigOption
with_logger discard none s = applied (record s { logger = some discard })
with_logger discard (some l) s = applied (record s { logger = some l })

unfoldable pub with_metrics : Option ℕ → ConfigOption
with_metrics none s = refused nil_metrics
with_metrics (some m) s = applied (record s { metrics = some m })

unfoldable pub with_server : Option ℕ → ConfigOption
with_server none s = refused nil_server
with_server (some srv) s = applied (record s { server = some srv })

unfoldable pub with_listener : Option ℕ → ConfigOption
with_listener none s = refused nil_listener
with_listener (some ln) s = applied (record s { listener = some ln })

unfoldable pub with_address_resolver : Option ℕ → ConfigOption
with_address_resolver none s = refused nil_resolver
with_address_resolver (some r) s = applied (record s { resolver = some r })

unfoldable pub with_registration_hook : Option ℕ → ConfigOption
with_registration_hook none s = refused nil_registration_hook
with_registration_hook (some fn) s = applied (record s { reg_hook = some fn })

unfoldable pub with_kv_config : KvConfig → ConfigOption
with_kv_config k s = applied (record s { cfg = record s.cfg { kv = overlay_kv s.cfg.kv k } })

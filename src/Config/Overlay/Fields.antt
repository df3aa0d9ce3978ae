-- ===== src/Config/Overlay/Fields.antt =====
-- config.go: the fields of the configuration by their types, and the precedence of a layer over them.
use consulx.Prelude.{
  Bool, ◌||◌, ◌&&◌, List, [], ◌∷◌, Option, none, some, Text, if◌then◌else◌, is_empty, map, ◌≡◌,
}
use consulx.Prelude.Dict.{lookup}
use consulx.Prelude.Int.{ℤ, is_zero_ℤ}
use consulx.Config.{Config}
use consulx.Config.Overlay.{entries}

-- Every field of the configuration, by its type.
abbrev pub text_fields : List (Config → Text)
text_fields =
    (λ c. c.consul.address)
    ∷ (λ c. c.consul.scheme)
    ∷ (λ c. c.consul.datacenter)
    ∷ (λ c. c.consul.namespace)
    ∷ (λ c. c.consul.partition)
    ∷ (λ c. c.consul.token)
    ∷ (λ c. c.consul.token_file)
    ∷ (λ c. c.consul.http_auth)
    ∷ (λ c. c.consul.tls.ca_file)
    ∷ (λ c. c.consul.tls.ca_path)
    ∷ (λ c. c.consul.tls.cert_file)
    ∷ (λ c. c.consul.tls.key_file)
    ∷ (λ c. c.consul.tls.server_name)
    ∷ (λ c. c.service.name)
    ∷ (λ c. c.service.id)
    ∷ (λ c. c.service.id_strategy)
    ∷ (λ c. c.service.address)
    ∷ (λ c. c.service.address_env)
    ∷ (λ c. c.service.scheme)
    ∷ (λ c. c.service.version)
    ∷ (λ c. c.service.environment)
    ∷ (λ c. c.service.zone)
    ∷ (λ c. c.service.namespace)
    ∷ (λ c. c.service.partition)
    ∷ (λ c. c.health.check)
    ∷ (λ c. c.health.check_path)
    ∷ (λ c. c.health.method)
    ∷ (λ c. c.health.body)
    ∷ (λ c. c.health.tls_server_name)
    ∷ (λ c. c.health.grpc_service)
    ∷ (λ c. c.kv.name)
    ∷ (λ c. c.kv.prefix)
    ∷ (λ c. c.kv.default_context)
    ∷ (λ c. c.kv.profile_separator)
    ∷ (λ c. c.kv.format)
    ∷ (λ c. c.kv.data_key)
    ∷ []

abbrev pub flag_fields : List (Config → Bool)
flag_fields =
    (λ c. c.consul.tls.enabled)
    ∷ (λ c. c.consul.tls.insecure_skip_verify)
    ∷ (λ c. c.service.allow_loopback)
    ∷ (λ c. c.service.prefer_ipv6)
    ∷ (λ c. c.service.disable_auto_meta)
    ∷ (λ c. c.service.enable_tag_override)
    ∷ (λ c. c.health.enabled)
    ∷ (λ c. c.health.hide_details)
    ∷ (λ c. c.health.tls_skip_verify)
    ∷ (λ c. c.health.use_tls)
    ∷ (λ c. c.retry.disable_jitter)
    ∷ (λ c. c.lifecycle.fail_fast)
    ∷ (λ c. c.kv.error_unused)
    ∷ []

abbrev pub number_fields : List (Config → ℤ)
number_fields =
    (λ c. c.consul.dial_timeout)
    ∷ (λ c. c.consul.request_timeout)
    ∷ (λ c. c.consul.wait_time)
    ∷ (λ c. c.service.port)
    ∷ (λ c. c.health.degraded_status_code)
    ∷ (λ c. c.health.interval)
    ∷ (λ c. c.health.timeout)
    ∷ (λ c. c.health.ttl)
    ∷ (λ c. c.health.deregister_critical_service_after)
    ∷ (λ c. c.health.success_before_passing)
    ∷ (λ c. c.health.failures_before_warning)
    ∷ (λ c. c.health.failures_before_critical)
    ∷ (λ c. c.retry.initial_delay)
    ∷ (λ c. c.retry.max_delay)
    ∷ (λ c. c.retry.multiplier)
    ∷ (λ c. c.retry.max_attempts)
    ∷ (λ c. c.retry.max_elapsed)
    ∷ (λ c. c.lifecycle.start_timeout)
    ∷ (λ c. c.lifecycle.shutdown_timeout)
    ∷ (λ c. c.lifecycle.drain_delay)
    ∷ []

-- The value of the upper layer, where there is one.
abbrev pub or_below : {A : Type 0} → Option A → Option A → Option A
or_below below none = below
or_below below (some x) = some x

-- The field of the upper layer `b` wins over that of `a`, unless it is the zero value.
pub record UpperWins (a b r : Config) : Type 0 where
  pub texts :
      map (λ f. f r) text_fields ≡ map (λ f. if is_empty (f b) then f a else f b) text_fields
  pub flags : map (λ f. f r) flag_fields ≡ map (λ f. f b || f a) flag_fields
  pub numbers :
      map (λ f. f r) number_fields ≡ map (λ f. if is_zero_ℤ (f b) then f a else f b) number_fields
  pub ca_pem : r.consul.tls.ca_pem ≡ or_below a.consul.tls.ca_pem b.consul.tls.ca_pem
  pub cert_pem : r.consul.tls.cert_pem ≡ or_below a.consul.tls.cert_pem b.consul.tls.cert_pem
  pub key_pem : r.consul.tls.key_pem ≡ or_below a.consul.tls.key_pem b.consul.tls.key_pem
  pub ports : r.service.ports ≡ or_below a.service.ports b.service.ports
  pub tags : r.service.tags ≡ or_below a.service.tags b.service.tags
  pub weights : r.service.weights ≡ or_below a.service.weights b.service.weights
  pub profiles : r.kv.profiles ≡ or_below a.kv.profiles b.kv.profiles
  pub auto_register :
      r.lifecycle.auto_register ≡ or_below a.lifecycle.auto_register b.lifecycle.auto_register
  pub deregister_on_shutdown :
      r.lifecycle.deregister_on_shutdown
      ≡ or_below a.lifecycle.deregister_on_shutdown b.lifecycle.deregister_on_shutdown
  pub endpoints : r.health.endpoints ≡ (
      if is_empty b.health.endpoints.health
        && (is_empty b.health.endpoints.live && is_empty b.health.endpoints.ready)
      then a.health.endpoints
      else b.health.endpoints)
  pub meta :
      (k : Text)
      → lookup k (entries r.service.meta)
        ≡ or_below (lookup k (entries a.service.meta)) (lookup k (entries b.service.meta))
  pub tagged_addresses :
      (k : Text)
      → lookup k (entries r.service.tagged_addresses)
        ≡ or_below
            (lookup k (entries a.service.tagged_addresses))
            (lookup k (entries b.service.tagged_addresses))
  pub header :
      (k : Text)
      → lookup k (entries r.health.header)
        ≡ or_below (lookup k (entries a.health.header)) (lookup k (entries b.health.header))

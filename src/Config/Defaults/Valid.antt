-- ===== src/Config/Defaults/Valid.antt =====
-- config.go: a configuration of nothing but a name, after `applyDefaults`, passes `validate`.
use consulx.Prelude.{
  Bool, true, false, [], none, some, Text, is_empty, ◌≡◌, inl, inr, refl, arith, text_eq,
}
use consulx.Prelude.Predicates.{All}
use consulx.NetAddr.{has_prefix}
use consulx.Config.{Config, id_hostname_port, one}
use consulx.Config.Zero.{no_config, no_service, no_health}
use consulx.Config.Defaults.{
  apply_defaults, consul_defaults, health_defaults, retry_defaults, lifecycle_defaults,
  default_consul_address, endpoints_of, path_default, check_default, timeout_default, cmp_or,
}
use consulx.Config.Validate.{validate, is_delimiter}
use consulx.Config.Address.{validate_consul_address, scheme_and_rest, cut_at, before_slash}
use consulx.Config.Validate.Sections.{IsHealth}
use consulx.Config.Validate.Service.{IsService}
use consulx.Config.Validate.Checks.{IsCheck, IsEndpoints}
use consulx.Config.Validate.Sound.{validate_iff}

-- The configuration that names a service, with or without health endpoints.
abbrev pub named : Text → Bool → Config
named n enabled = record no_config {
  service = record no_service { name = n };
  health = record no_health { enabled = enabled };
}

defaults-IsService :
    (n : Text)
    → is_empty n ≡ false
    → All (λ c. is_delimiter c ≡ false) n
    → IsService true (record no_service { name = n; id_strategy = id_hostname_port })
defaults-IsService n h d = record {
  named = rw h refl;
  name_form = d;
  id_form = tt;
  id_strategy = inl refl;
  port = omega arith;
  scheme = inl refl;
  ports = tt;
  meta = record { pairs = omega arith; entries = tt };
  weights = tt;
}

defaults-IsHealth :
    (enabled : Bool) → IsHealth (health_defaults (record no_health { enabled = enabled }))
unfolding health_defaults timeout_default
defaults-IsHealth enabled = record {
  degraded = inl refl;
  interval = omega arith;
  timeout = omega arith;
  ttl = omega arith;
  deregister = inr (omega arith);
  flap_damping = omega arith;
}

defaults-IsCheck :
    (enabled : Bool) → IsCheck (health_defaults (record no_health { enabled = enabled }))
unfolding health_defaults endpoints_of path_default check_default cmp_or text_eq
defaults-IsCheck true = record { known = inl refl; has_path = refl; path = refl }
defaults-IsCheck false = record { known = inr (inr (inl refl)); has_path = refl; path = refl }

defaults-IsEndpoints :
    (enabled : Bool)
    → IsEndpoints (health_defaults (record no_health { enabled = enabled })).endpoints
unfolding health_defaults endpoints_of text_eq
defaults-IsEndpoints true = record {
  health = refl;
  live = refl;
  ready = refl;
  health_live = refl;
  health_ready = refl;
  live_ready = refl;
}
defaults-IsEndpoints false = record {
  health = refl;
  live = refl;
  ready = refl;
  health_live = refl;
  health_ready = refl;
  live_ready = refl;
}

default_address :
    (url_ok : Text → Bool)
    → url_ok default_consul_address ≡ true
    → validate_consul_address url_ok default_consul_address ≡ none
unfolding validate_consul_address scheme_and_rest cut_at has_prefix before_slash text_eq
default_address url_ok h = rw h refl

-- A configuration that gives a name and nothing else is complete: with the defaults it has no problem,
-- whether or not the health endpoints are enabled. The name is not empty and has no slash or blank, and
-- net/url parses the default address.
pub validate-apply_defaults :
    (url_ok : Text → Bool) (n : Text) (enabled : Bool)
    → url_ok default_consul_address ≡ true
    → is_empty n ≡ false
    → All (λ c. is_delimiter c ≡ false) n
    → validate url_ok (apply_defaults (named n enabled)) ≡ some []
unfolding apply_defaults consul_defaults retry_defaults lifecycle_defaults one
validate-apply_defaults url_ok n enabled url h d =
    (validate_iff url_ok true (apply_defaults (named n enabled)) refl).1 (record {
      address = default_address url_ok url;
      consul = record {
        scheme = inl refl;
        dial_timeout = omega arith;
        request_timeout = omega arith;
        wait_time = omega arith;
        tls_files = refl;
        tls_pems = refl;
        http_auth = inl refl;
      };
      service = defaults-IsService n h d;
      check = defaults-IsCheck enabled;
      endpoints = defaults-IsEndpoints enabled;
      health = defaults-IsHealth enabled;
      retry = record { delays = omega arith; multiplier = omega arith; limits = omega arith };
      end = record {
        format = inl refl;
        start_timeout = omega arith;
        shutdown_timeout = omega arith;
      };
    })

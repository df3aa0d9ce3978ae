-- ===== src/Config/Validate/Checks.antt =====
-- config.go, `validate`: what the tests of the check, the health endpoints and the last sections ask.
use consulx.Prelude.{
  true, false, ◌&&◌, ◌||◌, not, [], Text, text_eq, text_eq_iff, is_empty, ◌≡◌, ◌↔◌, arith,
}
use consulx.Prelude.Predicates.{All, In}
use consulx.Prelude.Int.{pos, ◌≤ℤ◌}
use consulx.Config.{Config, HealthConfig, HealthEndpoints, check_http}
use consulx.Config.Validate.{
  faults, check_tests, check_types, rooted, validate_endpoints, end_tests, kv_formats,
}
use consulx.Config.Validate.Sections.{Passes}
use consulx.Config.Validate.Service.{seen_iff}

-- The path is not set, or begins with a slash.
abbrev pub IsPath : Text → Type 0
IsPath p = (is_empty p || rooted p) ≡ true

-- The check is of a type that Consul has ("auto" is none), with a path if it is an HTTP check.
pub record IsCheck (h : HealthConfig) : Type 0 where
  pub known : In h.check check_types
  pub has_path : (text_eq h.check check_http && is_empty h.check_path) ≡ false
  pub path : IsPath h.check_path

pub IsCheck-iff : (h : HealthConfig) → All Passes (check_tests h) ↔ IsCheck h
unfolding check_tests
IsCheck-iff h = (
  λ k. record {
    known = (seen_iff h.check check_types).0 (ground (arith, k.0));
    has_path = k.1.0;
    path = ground (arith, k.1.1.0);
  },
  λ ok. (
    ground (arith, (seen_iff h.check check_types).1 ok.known),
    (ok.has_path, (ground (arith, ok.path), tt)),
  ),
)

-- One path is not set, or is another than the other.
abbrev pub Apart : Text → Text → Type 0
Apart a b = (is_empty a || not (text_eq a b)) ≡ true

pub record IsEndpoints (e : HealthEndpoints) : Type 0 where
  pub health : IsPath e.health
  pub live : IsPath e.live
  pub ready : IsPath e.ready
  pub health_live : Apart e.health e.live
  pub health_ready : Apart e.health e.ready
  pub live_ready : Apart e.live e.ready

IsEndpoints-Is : (e : HealthEndpoints) → validate_endpoints e ≡ [] → IsEndpoints e
unfolding validate_endpoints faults
IsEndpoints-Is e h = record {
  health = ground (arith, h);
  live = ground (arith, h);
  ready = ground (arith, h);
  health_live = ground (arith, h, text_eq_iff e.health e.live);
  health_ready = ground (arith, h, text_eq_iff e.health e.ready);
  live_ready = ground (arith, h, text_eq_iff e.live e.ready);
}

Is-endpoints : (e : HealthEndpoints) → IsEndpoints e → validate_endpoints e ≡ []
unfolding validate_endpoints faults
Is-endpoints e ok =
    ground (arith, ok.health, ok.live, ok.ready, ok.health_live, ok.health_ready, ok.live_ready)

pub IsEndpoints-iff : (e : HealthEndpoints) → (validate_endpoints e ≡ []) ↔ IsEndpoints e
IsEndpoints-iff e = (IsEndpoints-Is e, Is-endpoints e)

pub record IsEnd (c : Config) : Type 0 where
  pub format : In c.kv.format kv_formats
  pub start_timeout : pos 0 ≤ℤ c.lifecycle.start_timeout
  pub shutdown_timeout : pos 0 ≤ℤ c.lifecycle.shutdown_timeout

pub IsEnd-iff : (c : Config) → All Passes (end_tests c) ↔ IsEnd c
unfolding end_tests
IsEnd-iff c = (
  λ k. record {
    format = (seen_iff c.kv.format kv_formats).0 (ground (arith, k.0));
    start_timeout = ground (arith, k.1.0);
    shutdown_timeout = ground (arith, k.1.0);
  },
  λ ok. (
    ground (arith, (seen_iff c.kv.format kv_formats).1 ok.format),
    (ground (arith, ok.start_timeout, ok.shutdown_timeout), tt),
  ),
)

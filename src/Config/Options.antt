-- ===== src/Config/Options.antt =====
-- options.go, `newSettings`, which applies the options over the environment; the options themselves are
-- in Each. An object that an option only hands on (a client, a logger, a hook, a policy) is a number;
-- nil is `none`.
pub mod Each
pub mod Layered
use consulx.Prelude.{
  ℕ, Bool, true, false, List, [], ◌∷◌, ◌++◌, Option, none, some, Text, if◌then◌else◌, is_empty,
}
use consulx.Prelude.Dict.{Dict}
use consulx.Prelude.Int.{ℤ, pos, ltb_ℤ}
use consulx.Config.{
  TlsConfig, HealthConfig, HealthEndpoints, RetryConfig, ConsulConfig, ServiceConfig,
  LifecycleConfig, Config,
}
use consulx.Config.Overlay.{overlay, overlay_health, overlay_retry, copy, entries, endpoints_zero}
use consulx.Config.Defaults.{apply_defaults}
use consulx.Config.Validate.{Problem, validate}
use consulx.Config.Env.{Fault, config_from_lookup}

pub record Settings : Type 0 where
  pub cfg : Config
  pub logger : Option ℕ
  pub metrics : Option ℕ
  pub retry : Option ℕ
  pub http_client : Option ℕ
  pub api_hook : Option ℕ
  pub server : Option ℕ
  pub listener : Option ℕ
  pub resolver : Option ℕ
  pub reg_hook : Option ℕ

-- The errors that options answer.
pub data OptionFault : Type 0 where
  nil_http_client no_endpoint nil_retry_policy negative_drain_delay nil_metrics : OptionFault
  nil_server nil_listener nil_resolver nil_registration_hook : OptionFault

pub data Applied : Type 0 where
  applied : Settings → Applied
  refused : OptionFault → Applied

-- `Option`: what `apply` does.
abbrev pub ConfigOption : Type 0
ConfigOption = Settings → Applied

-- Options that write into one section.
abbrev pub on_consul : (ConsulConfig → ConsulConfig) → ConfigOption
on_consul f s = applied (record s { cfg = record s.cfg { consul = f s.cfg.consul } })

abbrev pub on_service : (ServiceConfig → ServiceConfig) → ConfigOption
on_service f s = applied (record s { cfg = record s.cfg { service = f s.cfg.service } })

abbrev pub on_health : (HealthConfig → HealthConfig) → ConfigOption
on_health f s = applied (record s { cfg = record s.cfg { health = f s.cfg.health } })

abbrev pub on_lifecycle : (LifecycleConfig → LifecycleConfig) → ConfigOption
on_lifecycle f s = applied (record s { cfg = record s.cfg { lifecycle = f s.cfg.lifecycle } })

-- What follows on an option: a refused one leaves the settings, and its error is kept.
unfoldable pub proceed :
    (Settings → Settings × List OptionFault) → Settings → Applied → Settings × List OptionFault
proceed next s (applied s') = next s'
proceed next s (refused e) = let rest = next s in (rest.0, e ∷ rest.1)

-- The loop of `newSettings`; a nil option is skipped.
unfoldable pub apply_options : List (Option ConfigOption) → Settings → Settings × List OptionFault
unfolding proceed
apply_options [] s = (s, [])
apply_options (none ∷ os) s = apply_options os s
apply_options (some o ∷ os) s = proceed (apply_options os) s (o s)

-- What `newSettings` answers.
pub data Answer : Type 0 where
  settings : Settings → Answer
  bad_environment : List (Text × Fault) → Answer
  bad_options : List OptionFault → Answer
  bad_config : List Problem → Answer
  panics : Answer

-- The logger and the metrics that nobody has set: those of the process, and none.
unfoldable pub with_fallbacks : ℕ → ℕ → Settings → Settings
with_fallbacks log no_metrics s = record s {
  logger = elim s.logger [ none ↦ some log | some l ↦ some l ];
  metrics = elim s.metrics [ none ↦ some no_metrics | some m ↦ some m ];
}

unfoldable pub checked : ℕ → ℕ → Settings → Option (List Problem) → Answer
unfolding with_fallbacks
checked log no_metrics s none = panics
checked log no_metrics s (some []) = settings (with_fallbacks log no_metrics s)
checked log no_metrics s (some (p ∷ ps)) = bad_config (p ∷ ps)

unfoldable pub finished : (Text → Bool) → ℕ → ℕ → Settings × List OptionFault → Answer
unfolding checked
finished url_ok log no_metrics (s, e ∷ es) = bad_options (e ∷ es)
finished url_ok log no_metrics (s, []) =
    let done = record s { cfg = apply_defaults s.cfg } in
    checked log no_metrics done (validate url_ok done.cfg)

abbrev pub fresh : Config → Settings
fresh cfg = record {
  cfg = cfg;
  logger = none;
  metrics = none;
  retry = none;
  http_client = none;
  api_hook = none;
  server = none;
  listener = none;
  resolver = none;
  reg_hook = none;
}

unfoldable pub from_env :
    (Text → Bool) → ℕ → ℕ → List (Option ConfigOption) → Config × List (Text × Fault) → Answer
unfolding finished apply_options
from_env url_ok log no_metrics opts (env, f ∷ fs) = bad_environment (f ∷ fs)
from_env url_ok log no_metrics opts (env, []) =
    finished url_ok log no_metrics (apply_options opts (fresh env))

unfoldable pub new_settings :
    (Text → Bool)
    → ℕ
    → ℕ
    → (Text → Option ℤ)
    → (Text → Option Text)
    → List (Option ConfigOption)
    → Answer
unfolding from_env
new_settings url_ok log no_metrics parse_duration find opts =
    from_env url_ok log no_metrics opts (config_from_lookup parse_duration find)

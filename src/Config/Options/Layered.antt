-- ===== src/Config/Options/Layered.antt =====
-- options.go, `newSettings`: what its answer says of the environment, the options and the result.
use consulx.Prelude.{
  ℕ, Bool, true, List, [], ◌∷◌, ◌++◌, Option, none, some, Text, ◌≡◌, ◌≢◌, refl, ap,
}
use mathlib.Core.Path.{fun_ext, subst}
use consulx.Prelude.Int.{ℤ}
use consulx.Config.{Config}
use consulx.Config.Overlay.{overlay}
use consulx.Config.Overlay.Layers.{MapsOk, overlay_assoc}
use consulx.Config.Defaults.{apply_defaults, lifecycle_defaults, filled_bool}
use consulx.Config.Validate.{Problem, validate}
use consulx.Config.Validate.Sound.{IsValid, validate_iff, validate-problems}
use consulx.Config.Env.{Fault, config_from_lookup}
use consulx.Config.Options.{
  Settings, ConfigOption, OptionFault, settings, panics, apply_options, proceed, checked, finished,
  with_fallbacks, fresh, from_env, new_settings,
}
use consulx.Config.Options.Each.{with_config}

apply_options-merge :
    (pre post : List (Option ConfigOption)) (a b : Config) (s : Settings)
    → MapsOk a
    → apply_options (pre ++ (some (with_config a) ∷ (some (with_config b) ∷ post))) s
      ≡ apply_options (pre ++ (some (with_config (overlay a b)) ∷ post)) s
unfolding apply_options with_config
apply_options-merge [] post a b s h =
    ap (λ c. apply_options post (record s { cfg = c })) (overlay_assoc s.cfg a b h)
apply_options-merge (none ∷ pre) post a b s h = apply_options-merge pre post a b s h
apply_options-merge (some o ∷ pre) post a b s h =
    ap (λ next. proceed next s (o s)) (fun_ext (λ t. apply_options-merge pre post a b t h))

-- Configurations that are given one after the other are worth one configuration, the later laid over the
-- earlier, wherever they stand among the options. No key stands twice in a map of the earlier.
pub new_settings-overlay :
    (url_ok : Text → Bool) (log no_metrics : ℕ) (parse_duration : Text → Option ℤ)
    (find : Text → Option Text) (pre post : List (Option ConfigOption)) (a b : Config)
    → MapsOk a
    → new_settings url_ok log no_metrics parse_duration find
        (pre ++ (some (with_config a) ∷ (some (with_config b) ∷ post)))
      ≡ new_settings url_ok log no_metrics parse_duration find
          (pre ++ (some (with_config (overlay a b)) ∷ post))
unfolding new_settings from_env
new_settings-overlay url_ok log no_metrics parse_duration find pre post a b h =
    at_env (config_from_lookup parse_duration find)
  where
    at_env :
        (env : Config × List (Text × Fault))
        → from_env url_ok log no_metrics
            (pre ++ (some (with_config a) ∷ (some (with_config b) ∷ post)))
            env
          ≡ from_env url_ok log no_metrics (pre ++ (some (with_config (overlay a b)) ∷ post)) env
    at_env (env, []) =
        ap (finished url_ok log no_metrics) (apply_options-merge pre post a b (fresh env) h)
    at_env (env, f ∷ fs) = refl

-- What the settings that are handed out satisfy.
pub record Sound (url_ok : Text → Bool) (chosen : Config) (s : Settings) : Type 0 where
  pub registers : Bool
  pub defaulted : s.cfg ≡ apply_defaults chosen
  pub auto_register : s.cfg.lifecycle.auto_register ≡ some registers
  pub valid : IsValid url_ok registers s.cfg
  pub logger : s.logger ≢ none
  pub metrics : s.metrics ≢ none

checked-settings :
    (log no_metrics : ℕ) (done s : Settings) (found : Option (List Problem))
    → checked log no_metrics done found ≡ settings s
    → (found ≡ some []) × (with_fallbacks log no_metrics done ≡ s)
unfolding checked
checked-settings log no_metrics done s none h = cc
checked-settings log no_metrics done s (some []) h = (refl, cc h)
checked-settings log no_metrics done s (some (p ∷ ps)) h = cc

registers_of : (l : Option Bool) → (b : Bool) × (filled_bool l true ≡ some b)
registers_of none = (true, refl)
registers_of (some b) = (b, refl)

filled_in : (o : Option ℕ) (n : ℕ) → (elim o [ none ↦ some n | some l ↦ some l ]) ≢ none
filled_in none n h = cc
filled_in (some l) n h = cc

fallbacks-Sound :
    (url_ok : Text → Bool) (log no_metrics : ℕ) (chosen : Settings)
    → validate url_ok (apply_defaults chosen.cfg) ≡ some []
    → Sound url_ok chosen.cfg
        (with_fallbacks log no_metrics (record chosen { cfg = apply_defaults chosen.cfg }))
unfolding with_fallbacks
fallbacks-Sound url_ok log no_metrics chosen ok =
    let (b, e) = registers_of chosen.cfg.lifecycle.auto_register in
    let known : (apply_defaults chosen.cfg).lifecycle.auto_register ≡ some b =
      unfold apply_defaults lifecycle_defaults in e in
    record {
      registers = b;
      defaulted = refl;
      auto_register = known;
      valid = (validate_iff url_ok b (apply_defaults chosen.cfg) known).0 ok;
      logger = filled_in chosen.logger log;
      metrics = filled_in chosen.metrics no_metrics;
    }

finished-Sound :
    (url_ok : Text → Bool) (log no_metrics : ℕ) (r : Settings × List OptionFault) (s : Settings)
    → finished url_ok log no_metrics r ≡ settings s
    → (r.1 ≡ []) × Sound url_ok r.0.cfg s
unfolding finished
finished-Sound url_ok log no_metrics (t, e ∷ es) s h = cc
finished-Sound url_ok log no_metrics (t, []) s h =
    let done : Settings = record t { cfg = apply_defaults t.cfg } in
    let parts = checked-settings log no_metrics done s (validate url_ok done.cfg) h in
    (refl, subst (Sound url_ok t.cfg) parts.1 (fallbacks-Sound url_ok log no_metrics t parts.0))

from_env-Sound :
    (url_ok : Text → Bool) (log no_metrics : ℕ) (opts : List (Option ConfigOption))
    (env : Config × List (Text × Fault)) (s : Settings)
    → from_env url_ok log no_metrics opts env ≡ settings s
    → (env.1 ≡ [])
      × ((apply_options opts (fresh env.0)).1 ≡ [])
      × Sound url_ok (apply_options opts (fresh env.0)).0.cfg s
unfolding from_env
from_env-Sound url_ok log no_metrics opts (env, f ∷ fs) s h = cc
from_env-Sound url_ok log no_metrics opts (env, []) s h =
    let rest = finished-Sound url_ok log no_metrics (apply_options opts (fresh env)) s h in
    (refl, rest.0, rest.1)

pub new_settings-Sound :
    (url_ok : Text → Bool) (log no_metrics : ℕ) (parse_duration : Text → Option ℤ)
    (find : Text → Option Text) (opts : List (Option ConfigOption)) (s : Settings)
    → new_settings url_ok log no_metrics parse_duration find opts ≡ settings s
    → ((config_from_lookup parse_duration find).1 ≡ [])
      × ((apply_options opts (fresh (config_from_lookup parse_duration find).0)).1 ≡ [])
      × Sound url_ok (apply_options opts (fresh (config_from_lookup parse_duration find).0)).0.cfg s
unfolding new_settings
new_settings-Sound url_ok log no_metrics parse_duration find opts s h =
    from_env-Sound url_ok log no_metrics opts (config_from_lookup parse_duration find) s h

checked-panics :
    (log no_metrics : ℕ) (done : Settings) (found : Option (List Problem))
    → found ≢ none
    → checked log no_metrics done found ≢ panics
unfolding checked
checked-panics log no_metrics done none n h = n refl
checked-panics log no_metrics done (some []) n h = cc
checked-panics log no_metrics done (some (p ∷ ps)) n h = cc

-- The defaults set the pointer that `validate` follows.
validate-defaulted : (url_ok : Text → Bool) (c : Config) → validate url_ok (apply_defaults c) ≢ none
validate-defaulted url_ok c h =
    let (b, e) = registers_of c.lifecycle.auto_register in
    let known : (apply_defaults c).lifecycle.auto_register ≡ some b =
      unfold apply_defaults lifecycle_defaults in e in
    cc (h, validate-problems url_ok b (apply_defaults c) known)

finished-panics :
    (url_ok : Text → Bool) (log no_metrics : ℕ) (r : Settings × List OptionFault)
    → finished url_ok log no_metrics r ≢ panics
unfolding finished
finished-panics url_ok log no_metrics (t, e ∷ es) h = cc
finished-panics url_ok log no_metrics (t, []) h =
    checked-panics log no_metrics (record t { cfg = apply_defaults t.cfg })
      (validate url_ok (apply_defaults t.cfg)) (validate-defaulted url_ok t.cfg) h

-- Whatever the environment and the options are, no nil pointer is followed.
pub new_settings-panics :
    (url_ok : Text → Bool) (log no_metrics : ℕ) (parse_duration : Text → Option ℤ)
    (find : Text → Option Text) (opts : List (Option ConfigOption))
    → new_settings url_ok log no_metrics parse_duration find opts ≢ panics
unfolding new_settings from_env
new_settings-panics url_ok log no_metrics parse_duration find opts =
    at_env (config_from_lookup parse_duration find)
  where
    at_env : (env : Config × List (Text × Fault)) → from_env url_ok log no_metrics opts env ≢ panics
    at_env (env, []) h = finished-panics url_ok log no_metrics (apply_options opts (fresh env)) h
    at_env (env, f ∷ fs) h = cc

-- ===== src/Tests/Settings.antt =====
-- Configurations, environments and options on concrete data.
use consulx.Prelude.{
  Bool, true, List, [], ◌∷◌, Option, none, some, Text, codes, text_eq, split, ◌≡◌, ◌↔◌, refl, map,
  arith,
}
use consulx.Prelude.Dict.{Dict, lookup}
use consulx.Prelude.Int.{ℤ, pos}
use consulx.Prelude.Trim.{trim_space, trim_start, trim_end}
use consulx.Prelude.Strconv.{parse_bool, atoi}
use consulx.NetAddr.{has_prefix}
use consulx.Config.{Config, one}
use consulx.Config.Zero.{no_config, no_service, no_health, no_lifecycle, no_consul, no_tls}
use consulx.Config.Overlay.{overlay}
use consulx.Config.Overlay.Layers.{MapsOk}
use consulx.Config.Overlay.Fields.{UpperWins}
use consulx.Config.Overlay.Laws.{overlay_laws}
use consulx.Config.Defaults.{
  apply_defaults, lifecycle_defaults, endpoints_of, path_default, check_default, timeout_default,
  cmp_or,
}
use consulx.Config.Defaults.Kept.{apply_defaults-overlay}
use consulx.Config.Defaults.Valid.{named}
use consulx.Config.Validate.{
  validate, problems, faults, consul_tests, name_tests, validate_service, validate_ports,
  validate_meta, bad_weights, check_tests, validate_endpoints, health_tests, retry_tests, end_tests,
}
use consulx.Config.Address.{validate_consul_address, scheme_and_rest, cut_at, before_slash}
use consulx.Config.Validate.Sound.{IsValid, validate_iff}
use consulx.Config.Env.{
  config_from_lookup, env_config, env_consul, env_service, env_faults, get, split_list, meta_from,
  parse_meta, list_of, meta_of, duration_of, fault,
}
use consulx.Config.Env.Lists.{joined, written, parse_meta-written}
use consulx.Config.Options.{
  Settings, ConfigOption, settings, apply_options, finished, checked, with_fallbacks, fresh,
  from_env, new_settings,
}
use consulx.Config.Options.Each.{with_service_name, with_auto_health}
use consulx.Config.Options.Layered.{Sound, new_settings-Sound}
use consulx.Client.Building.Faithful.{Faithful, settings-Faithful}
use consulx.Config.Load.{decoded, loaded, parse_config, over_file, load_config, load_config_on}

abbrev any_url : Text → Bool
any_url t = true

abbrev orders : Config
orders = named (codes "orders") true

validate_iff_example :
    (validate any_url (apply_defaults orders) ≡ some [])
    ↔ IsValid any_url true (apply_defaults orders)
unfolding apply_defaults lifecycle_defaults
validate_iff_example = validate_iff any_url true (apply_defaults orders) refl

abbrev layer_of : Dict Text → Config
layer_of meta = record no_config { service = record no_service { meta = some meta; port = pos 80 } }

abbrev team : Dict Text
team = (codes "team", codes "a") ∷ (codes "tier", codes "1") ∷ []

team-MapsOk : MapsOk (layer_of team)
unfolding text_eq
team-MapsOk = record { meta = ((refl, tt), (tt, tt)); tagged_addresses = tt; header = tt }

abbrev renamed : Config
renamed = layer_of ((codes "team", codes "b") ∷ [])

overlay_laws_example :
    (overlay (overlay orders (layer_of team)) renamed
      ≡ overlay orders (overlay (layer_of team) renamed))
    × UpperWins orders (layer_of team) (overlay orders (layer_of team))
overlay_laws_example = overlay_laws orders (layer_of team) renamed team-MapsOk

apply_defaults-overlay_example :
    overlay (apply_defaults (layer_of team)) (layer_of team) ≡ apply_defaults (layer_of team)
unfolding text_eq
apply_defaults-overlay_example = apply_defaults-overlay (layer_of team) team-MapsOk refl

abbrev zone_entry : Dict Text
zone_entry = (codes "zone", codes "eu 1") ∷ []

parse_meta-written_example : parse_meta (joined (map written zone_entry)) ≡ some zone_entry
unfolding trim_start trim_end
parse_meta-written_example =
    parse_meta-written zone_entry
      (
        (
          record {
            filled = refl;
            no_comma = (refl, (refl, (refl, (refl, tt))));
            no_equals = (refl, (refl, (refl, (refl, tt))));
            trimmed = record { start = refl; end = refl };
          },
          record {
            no_comma = (refl, (refl, (refl, (refl, tt))));
            trimmed = record { start = refl; end = refl };
          },
        ),
        tt,
      )
      (tt, tt)

abbrev no_duration : Text → Option ℤ
no_duration t = none

abbrev env_of : Dict Text → Text → Option Text
env_of vars k = lookup k vars

-- A file that turns everything on, and an environment that asks for the contrary.
abbrev all_on : Config
all_on = record no_config {
  consul = record no_consul { tls = record no_tls { insecure_skip_verify = true } };
  health = record no_health { enabled = true };
  lifecycle = record no_lifecycle { fail_fast = true };
}

abbrev off_vars : Dict Text
off_vars =
    (codes "CONSULX_HEALTH_ENABLED", codes "false")
    ∷ (codes "CONSULX_FAIL_FAST", codes "false")
    ∷ (codes "CONSUL_HTTP_SSL_VERIFY", codes "true")
    ∷ []

abbrev on_and_off : Config
on_and_off = overlay all_on (config_from_lookup no_duration (env_of off_vars)).0

off_vars-loaded :
    load_config (λ t. decoded all_on) no_duration (env_of off_vars) (some []) ≡ loaded on_and_off
unfolding load_config parse_config over_file config_from_lookup env_faults get fault lookup text_eq
    trim_space parse_bool atoi parse_meta meta_from split_list split
off_vars-loaded = refl

load_config_on_example :
    (on_and_off.health.enabled ≡ true)
    × (on_and_off.lifecycle.fail_fast ≡ true)
    × (on_and_off.consul.tls.insecure_skip_verify ≡ true)
unfolding parse_config
load_config_on_example =
    load_config_on (λ t. decoded all_on) no_duration (env_of off_vars) [] all_on on_and_off refl
      off_vars-loaded refl refl refl

abbrev options0 : List (Option ConfigOption)
options0 = some (with_service_name (codes "orders")) ∷ none ∷ some with_auto_health ∷ []

-- The environment names a zone.
abbrev zone_var : Text → Option Text
zone_var = env_of ((codes "CONSULX_ZONE", codes "eu") ∷ [])

abbrev settings0 : Settings
settings0 =
    let chosen = (apply_options options0 (fresh (config_from_lookup no_duration zone_var).0)).0 in
    with_fallbacks 1 2 (record chosen { cfg = apply_defaults chosen.cfg })

zoned-settings : new_settings any_url 1 2 no_duration zone_var options0 ≡ settings settings0
unfolding new_settings from_env apply_options with_service_name with_auto_health finished checked
    config_from_lookup env_faults env_config env_consul env_service get fault lookup text_eq
    trim_space parse_bool atoi parse_meta meta_from split_list split list_of meta_of duration_of
    apply_defaults endpoints_of path_default check_default timeout_default cmp_or validate problems
    validate_consul_address scheme_and_rest cut_at has_prefix before_slash faults consul_tests
    name_tests validate_service validate_ports validate_meta bad_weights check_tests
    validate_endpoints health_tests retry_tests end_tests one
zoned-settings = refl

settings0-Sound :
    Sound any_url
      (apply_options options0 (fresh (config_from_lookup no_duration zone_var).0)).0.cfg
      settings0
settings0-Sound =
    (new_settings-Sound any_url 1 2 no_duration zone_var options0 settings0 zoned-settings).2

settings-Faithful_example : Faithful any_url settings0-Sound.registers settings0
unfolding one with_fallbacks apply_defaults timeout_default apply_options with_service_name
    with_auto_health config_from_lookup env_config duration_of lookup text_eq
settings-Faithful_example =
    settings-Faithful any_url
      (apply_options options0 (fresh (config_from_lookup no_duration zone_var).0)).0.cfg settings0
      settings0-Sound (omega arith) (omega arith)

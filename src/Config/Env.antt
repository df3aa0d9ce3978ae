-- ===== src/Config/Env.antt =====
-- env.go: the layer of the environment. `parse_duration` is time.ParseDuration, and `find` is the
-- lookup of a variable.
pub mod Lists
pub mod Unset
use consulx.Prelude.{
  ℕ, suc, ◌+◌, ◌-◌, ◌*◌, ◌^◌, Bool, true, false, ◌&&◌, ◌||◌, not, List, [], ◌∷◌, ◌++◌, map, Option,
  none, some, Text, codes, text_eq, ltb, leb, ◌==◌, if◌then◌else◌, is_empty, any_of, split,
}
use consulx.Prelude.Trim.{trim_space}
use consulx.Prelude.Cut.{cut_char}
use consulx.Prelude.Strconv.{parse_bool, atoi}
use consulx.Prelude.Dict.{Dict, insert}
use consulx.Prelude.Int.{ℤ, pos, negsuc, sub_zero}
use consulx.Config.{
  TlsConfig, ConsulConfig, ServiceConfig, HealthConfig, LifecycleConfig, KvConfig, Config,
}
use consulx.Config.Zero.{no_config, no_consul, no_tls, no_service, no_health, no_lifecycle, no_kv}

pub data Fault : Type 0 where
  not_boolean not_duration not_integer not_meta : Fault

-- The loop of `splitList` over the parts.
kept_items : List Text → List Text
kept_items [] = []
kept_items (part ∷ parts) =
    let rest = kept_items parts in
    let item = trim_space part in if is_empty item then rest else item ∷ rest

unfoldable pub split_list : Text → List Text
unfolding kept_items
split_list v = kept_items (split b',' v)

-- The loop of `parseMeta` over the items.
unfoldable pub meta_from : List Text → Dict Text → Option (Dict Text)
meta_from [] m = some m
meta_from (item ∷ items) m = elim (cut_char b'=' item) [
  | none ↦ none
  | some (k, v) ↦
      if is_empty (trim_space k)
      then none
      else meta_from items (insert (trim_space k) (trim_space v) m)
]

unfoldable pub parse_meta : Text → Option (Dict Text)
unfolding meta_from
parse_meta v = meta_from (split_list v) []

-- `none` for a slice of no items, as `splitList` returns it.
unfoldable pub list_of : Text → Option (List Text)
list_of v = let items = split_list v in if is_empty items then none else some items

unfoldable pub meta_of : Text → Option (Dict Text)
meta_of v = if is_empty v then none else parse_meta v

-- Whether the variable is set to the Boolean.
says : Bool → Text → Bool
says b v = elim (parse_bool v) [ none ↦ false | some x ↦ if b then x else not x ]

unfoldable pub duration_of : (Text → Option ℤ) → Text → ℤ
duration_of parse_duration v =
    if is_empty v then pos 0 else elim (parse_duration v) [ none ↦ pos 0 | some d ↦ d ]

-- An error for a variable that is set, and that is not of its form.
unfoldable pub fault : Text → Fault → Bool → Text → List (Text × Fault)
fault name f good v = if is_empty v || good then [] else (name, f) ∷ []

abbrev pub is_some {ℓ} : {A : Type ℓ} → Option A → Bool
is_some none = false
is_some (some a) = true

module _ (parse_duration : Text → Option ℤ) (find : Text → Option Text) where
  -- `get`.
  unfoldable pub get : Text → Text
  get k = elim (find k) [ none ↦ [] | some v ↦ trim_space v ]

  unfoldable pub env_consul : ConsulConfig
  unfolding get says
  env_consul = record no_consul {
    address = get (codes "CONSUL_HTTP_ADDR");
    token = get (codes "CONSUL_HTTP_TOKEN");
    token_file = get (codes "CONSUL_HTTP_TOKEN_FILE");
    http_auth = get (codes "CONSUL_HTTP_AUTH");
    scheme = if says true (get (codes "CONSUL_HTTP_SSL")) then codes "https" else [];
    tls = record no_tls {
      insecure_skip_verify = says false (get (codes "CONSUL_HTTP_SSL_VERIFY"));
      ca_file = get (codes "CONSUL_CACERT");
      ca_path = get (codes "CONSUL_CAPATH");
      cert_file = get (codes "CONSUL_CLIENT_CERT");
      key_file = get (codes "CONSUL_CLIENT_KEY");
      server_name = get (codes "CONSUL_TLS_SERVER_NAME");
    };
    namespace = get (codes "CONSUL_NAMESPACE");
    partition = get (codes "CONSUL_PARTITION");
    datacenter = get (codes "CONSULX_DATACENTER");
  }

  unfoldable pub env_service : ServiceConfig
  unfolding get
  env_service =
      let port = get (codes "CONSULX_SERVICE_PORT") in
      record no_service {
        name = get (codes "CONSULX_SERVICE_NAME");
        id = get (codes "CONSULX_SERVICE_ID");
        address = get (codes "CONSULX_SERVICE_ADDRESS");
        port = if is_empty port then pos 0 else (atoi port).0;
        tags = list_of (get (codes "CONSULX_SERVICE_TAGS"));
        meta = meta_of (get (codes "CONSULX_SERVICE_META"));
        version = get (codes "CONSULX_SERVICE_VERSION");
        environment = get (codes "CONSULX_ENVIRONMENT");
        zone = get (codes "CONSULX_ZONE");
      }

  unfoldable pub env_config : Config
  unfolding env_consul env_service says
  env_config = record no_config {
    consul = env_consul;
    service = env_service;
    health = record no_health {
      enabled = says true (get (codes "CONSULX_HEALTH_ENABLED"));
      interval = duration_of parse_duration (get (codes "CONSULX_HEALTH_INTERVAL"));
      deregister_critical_service_after =
          duration_of parse_duration (get (codes "CONSULX_DEREGISTER_CRITICAL_AFTER"));
    };
    lifecycle = record no_lifecycle {
      fail_fast = says true (get (codes "CONSULX_FAIL_FAST"));
      drain_delay = duration_of parse_duration (get (codes "CONSULX_DRAIN_DELAY"));
    };
    kv = record no_kv { profiles = list_of (get (codes "CONSULX_PROFILES")) };
  }

  bool_fault : Text → List (Text × Fault)
  bool_fault k = fault k not_boolean (is_some (parse_bool (get k))) (get k)

  duration_fault : Text → List (Text × Fault)
  duration_fault k = fault k not_duration (is_some (parse_duration (get k))) (get k)

  unfoldable pub env_faults : List (Text × Fault)
  unfolding bool_fault duration_fault
  env_faults =
      let port = get (codes "CONSULX_SERVICE_PORT") in
      let meta = get (codes "CONSULX_SERVICE_META") in
      bool_fault (codes "CONSUL_HTTP_SSL")
      ++ (bool_fault (codes "CONSUL_HTTP_SSL_VERIFY")
          ++ (fault (codes "CONSULX_SERVICE_PORT") not_integer (atoi port).1 port
              ++ (fault (codes "CONSULX_SERVICE_META") not_meta (is_some (parse_meta meta)) meta
                  ++ (bool_fault (codes "CONSULX_HEALTH_ENABLED")
                      ++ (duration_fault (codes "CONSULX_HEALTH_INTERVAL")
                          ++ (duration_fault (codes "CONSULX_DEREGISTER_CRITICAL_AFTER")
                              ++ (bool_fault (codes "CONSULX_FAIL_FAST")
                                  ++ duration_fault (codes "CONSULX_DRAIN_DELAY"))))))))

  -- `configFromLookup`: the layer, with every variable that is malformed.
  unfoldable pub config_from_lookup : Config × List (Text × Fault)
  config_from_lookup = (env_config, env_faults)

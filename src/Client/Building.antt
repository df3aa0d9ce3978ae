-- ===== src/Client/Building.antt =====
-- client.go, apiclient.go, kv.go and the constructor of kvconfig/kvconfig.go: what `New` makes of the
-- settings. An http.Client or a hook of the application is a number; `hooks` is what the hooks do, and
-- `tls_ok` and `client_ok` say which configurations the official client takes.
pub mod Faithful
pub mod Effective
use consulx.Prelude.{
  ℕ, ◌-◌, ◌*◌, ◌/◌, ◌%◌, ◌^◌, Bool, true, false, List, [], ◌∷◌, Option, none, some, Text, codes,
  text_eq, if◌then◌else◌, is_empty, ltb, ◌==◌, suc,
}
use consulx.Prelude.Cut.{cut_char}
use consulx.Prelude.Int.{ℤ, pos, negsuc, sub_zero, pos_part}
use consulx.Config.{Config, ConsulConfig, TlsConfig, RetryConfig}
use consulx.Config.Overlay.{merge_map}
use consulx.Config.Options.{Settings}
use consulx.Health.Registry.{Registry, new_registry}
use consulx.Config.Target.{consul_scheme}
use consulx.KvConfig.{Format, key_value, yaml, json}

pub data HttpClient : Type 0 where
  own_pool : ℤ → HttpClient  -- with the dial timeout of its transport
  given : ℕ → HttpClient

pub record ApiConfig : Type 0 where
  pub address : Text
  pub scheme : Text
  pub datacenter : Text
  pub namespace : Text
  pub partition : Text
  pub token : Text
  pub token_file : Text
  pub tls : TlsConfig
  pub http_auth : Option (Text × Text)
  pub http_client : HttpClient

-- `strings.Cut(auth, ":")` where authentication is on.
credentials : Text → Option (Text × Text)
credentials auth =
    if is_empty auth
    then none
    else elim (cut_char b':' auth) [ none ↦ some (auth, []) | some parts ↦ some parts ]

http_client_of : Option ℕ → ℤ → HttpClient
http_client_of none dial_timeout = own_pool dial_timeout
http_client_of (some c) dial_timeout = given c

unfoldable pub api_config : Settings → ApiConfig
unfolding credentials http_client_of
api_config s =
    let cc = s.cfg.consul in
    record {
      address = cc.address;
      scheme = consul_scheme cc;
      datacenter = cc.datacenter;
      namespace = cc.namespace;
      partition = cc.partition;
      token = cc.token;
      token_file = cc.token_file;
      tls = cc.tls;
      http_auth = credentials cc.http_auth;
      http_client = http_client_of s.http_client cc.dial_timeout;
    }

hooked : (ℕ → ApiConfig → ApiConfig) → Option ℕ → ApiConfig → ApiConfig
hooked hooks none c = c
hooked hooks (some h) c = hooks h c

-- The two are the ConfigErrors on Consul.TLS and Consul; the flag is whether the transport is our own.
pub data ApiAnswer : Type 0 where
  bad_tls bad_consul : ApiAnswer
  api_client : ApiConfig → Bool → ApiAnswer

connected : (ApiConfig → Bool) → ApiConfig → Bool → ApiAnswer
connected client_ok c own = if client_ok c then api_client c own else bad_consul

-- `newAPIClient`.
unfoldable pub new_api_client :
    (TlsConfig → Bool) → (ApiConfig → Bool) → (ℕ → ApiConfig → ApiConfig) → Settings → ApiAnswer
unfolding hooked connected
new_api_client tls_ok client_ok hooks s =
    let c = hooked hooks s.api_hook (api_config s) in
    elim s.http_client [
      | some h ↦ connected client_ok c false
      | none ↦ if tls_ok s.cfg.consul.tls then connected client_ok c true else bad_tls
    ]

-- The quotient by 5 of the `int64` that is this residue.
fifth : ℕ → ℤ
fifth m = if ltb m (2 ^ 63) then pos (m / 5) else sub_zero ((2 ^ 64 - m) / 5)

-- The time that a checker gets: `Timeout * 4 / 5`, with the wrap-around of the product.
unfoldable pub checker_timeout : ℤ → ℤ
unfolding fifth
checker_timeout (pos n) = fifth (n * 4 % 2 ^ 64)
checker_timeout (negsuc n) = fifth ((2 ^ 64 - suc n * 4 % 2 ^ 64) % 2 ^ 64)

-- The registry of the application's health; a timeout that is not positive is 0 there.
unfoldable pub health_registry : Settings → Registry
health_registry s = new_registry (pos_part (checker_timeout s.cfg.health.timeout))

-- The policy of `backoff` that the settings give, where the application has none.
pub data RetryChoice : Type 0 where
  policy : ℤ → ℤ → ℤ → Bool → ℤ → RetryChoice  -- initial, max, multiplier, jitter, attempts
  custom : ℕ → RetryChoice

unfoldable pub retry_choice : Settings → RetryChoice
retry_choice s = elim s.retry [
  | some p ↦ custom p
  | none ↦
      let r = s.cfg.retry in
      policy r.initial_delay r.max_delay r.multiplier (if r.disable_jitter then false else true)
        r.max_attempts
]

format_of : Text → Format
format_of f =
    if text_eq f (codes "yaml") then yaml else if text_eq f (codes "json") then json else key_value

profiles_of : List Text → Text → List Text
profiles_of [] environment = if is_empty environment then [] else environment ∷ []
profiles_of (p ∷ ps) environment = p ∷ ps

abbrev pub items : {A : Type 0} → Option (List A) → List A
items none = []
items (some xs) = xs

-- `Client.Config`: the configuration of the loader, without its timings and callbacks.
unfoldable pub loader_config : Config → consulx.KvConfig.Config
unfolding format_of profiles_of
loader_config c = record {
  name = if is_empty c.kv.name then c.service.name else c.kv.name;
  profiles = profiles_of (items c.kv.profiles) c.service.environment;
  prefix = c.kv.prefix;
  default_context = c.kv.default_context;
  profile_separator = c.kv.profile_separator;
  format = format_of c.kv.format;
  data_key = c.kv.data_key;
}

left_slashed : Text → Text
left_slashed [] = []
left_slashed (c ∷ cs) = let rest = left_slashed cs in if c == b'/' then rest else c ∷ cs

right_slashed : Text → Text
right_slashed [] = []
right_slashed (c ∷ cs) =
    let rest = right_slashed cs in
    if is_empty rest then (if c == b'/' then [] else c ∷ []) else c ∷ rest

or_else : Text → Text → Text
or_else t fallback = if is_empty t then fallback else t

-- `kvconfig.New`: the defaults, and the prefix without slashes around it.
unfoldable pub new_loader : consulx.KvConfig.Config → consulx.KvConfig.Config
unfolding left_slashed right_slashed or_else
new_loader c = record c {
  prefix = right_slashed (left_slashed (or_else c.prefix (codes "config")));
  default_context = or_else c.default_context (codes "application");
  profile_separator = or_else c.profile_separator (codes ",");
  data_key = or_else c.data_key (codes "data");
}

-- `append([]T(nil), list...)`: a copy, which is nil where there is nothing to copy.
copied : {A : Type 0} → Option (List A) → Option (List A)
copied none = none
copied (some []) = none
copied (some (x ∷ xs)) = some (x ∷ xs)

-- `EffectiveConfig`.
unfoldable pub effective_config : Config → Config
unfolding copied
effective_config c = record c {
  consul = record c.consul {
    tls = record c.consul.tls { ca_pem = none; cert_pem = none; key_pem = none };
  };
  service = record c.service {
    tags = copied c.service.tags;
    meta = merge_map none c.service.meta;
    tagged_addresses = merge_map none c.service.tagged_addresses;
    ports = copied c.service.ports;
  };
  health = record c.health { header = merge_map none c.health.header };
}

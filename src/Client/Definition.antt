-- ===== src/Client/Definition.antt =====
-- registration.go: the definition that the agent is sent. A duration in text is `time.Duration`'s, and
-- what the process knows of itself (its Go version, the library's version, the host name) is a record.
-- `is_ipv6` is netaddr.IsIPv6, which asks net/netip.
pub mod Meta
use consulx.Prelude.{
  ℕ, Bool, true, false, ◌&&◌, ◌||◌, not, List, [], ◌∷◌, ◌++◌, map, Option, none, some, Text, codes,
  text_eq, ltb, if◌then◌else◌, any_of, is_empty,
}
use consulx.Prelude.Decimal.{itoa}
use consulx.Prelude.Dict.{Dict, insert}
use consulx.Discovery.Instance.{Port, TaggedAddress, Weights, join_host_port}
use consulx.Health.{Status}
use consulx.Compat.{
  Version, Feature, multi_port, ipv6_address, namespaces, partitions, ai_service, supports,
}
use consulx.Client.Endpoints.{Location}
use consulx.Client.Checks.{HealthConfig, AgentCheck, build_check}

-- The part of `ServiceConfig` that the definition is made of.
pub record Service : Type 0 where
  pub name : Text
  pub tags : List Text
  pub meta : Dict Text
  pub disable_auto_meta : Bool
  pub version : Text
  pub environment : Text
  pub zone : Text
  pub ports : List Port
  pub weights : Option Weights
  pub tagged_addresses : Dict TaggedAddress
  pub enable_tag_override : Bool
  pub namespace : Text
  pub partition : Text

pub record Process : Type 0 where
  pub go_version : Text
  pub library_version : Text
  pub hostname : Option Text

set_text : Text → Text → Dict Text → Dict Text
set_text k [] meta = meta
set_text k (c ∷ cs) meta = insert k (c ∷ cs) meta

set_known : Text → Option Text → Dict Text → Dict Text
set_known k none meta = meta
set_known k (some v) meta = insert k v meta

-- `maps.Copy(meta, s.Meta)`.
unfoldable pub copy : Dict Text → Dict Text → Dict Text
copy [] meta = meta
copy ((k, v) ∷ user) meta = copy user (insert k v meta)

unfoldable pub automatic : Process → Service → Location → Dict Text
unfolding set_text set_known
automatic p s loc =
    let secure =
      (codes "secure", if text_eq loc.scheme (codes "https") then codes "true" else codes "false")
      ∷ [] in
    let own =
      if s.disable_auto_meta
      then secure
      else set_known (codes "hostname") p.hostname (
          insert (codes "consulx_version") p.library_version (
            insert (codes "go_version") p.go_version
              (insert (codes "language") (codes "go") secure))) in
    set_text (codes "zone") s.zone
      (set_text (codes "environment") s.environment (set_text (codes "version") s.version own))

unfoldable pub build_meta : Process → Service → Location → Dict Text
unfolding automatic copy
build_meta p s loc = copy s.meta (automatic p s loc)

-- `api.AgentServiceRegistration`, the fields that ConsulX sets or reads. `ai` is whether the hook set
-- an AI block.
pub record AgentService : Type 0 where
  pub id : Text
  pub name : Text
  pub tags : List Text
  pub address : Text
  pub port : ℕ
  pub ports : List Port
  pub meta : Dict Text
  pub enable_tag_override : Bool
  pub namespace : Text
  pub partition : Text
  pub weights : Option Weights
  pub tagged_addresses : Dict TaggedAddress
  pub check : Option AgentCheck
  pub ai : Bool

unfoldable pub need : Bool → Feature → List Feature
need true f = f ∷ []
need false f = []

-- The features that a definition uses, given the namespace and the partition of the client.
unfoldable pub needed : (Text → Bool) → Text → Text → AgentService → List Feature
unfolding need
needed is_ipv6 namespace partition reg =
    let ipv6 = is_ipv6 reg.address || any_of (λ ta. is_ipv6 ta.1.address) reg.tagged_addresses in
    need (not (is_empty reg.ports)) multi_port
    ++ (need ipv6 ipv6_address
        ++ (need (not (is_empty reg.namespace) || not (is_empty namespace)) namespaces
            ++ (need (not (is_empty reg.partition) || not (is_empty partition)) partitions
                ++ need reg.ai ai_service)))

-- The features of the list that the version does not support: one error each, joined.
unfoldable pub unsupported : Version → List Feature → List Feature
unsupported v [] = []
unsupported v (f ∷ fs) = let rest = unsupported v fs in if supports v f then rest else f ∷ rest

-- `checkFeatures`.
unfoldable pub check_features : (Text → Bool) → Version → Text → Text → AgentService → List Feature
unfolding needed unsupported
check_features is_ipv6 v namespace partition reg =
    unsupported v (needed is_ipv6 namespace partition reg)

-- `buildRegistration` up to the hook, for the instance's ID.
unfoldable pub definition_of :
    (ℕ → Text) → Process → Service → HealthConfig → Status → Text → Location → AgentService
definition_of duration p s h ready id loc = record {
  id = id;
  name = s.name;
  tags = s.tags;
  address = loc.address;
  port = if is_empty s.ports then loc.port else 0;
  ports = s.ports;
  meta = build_meta p s loc;
  enable_tag_override = s.enable_tag_override;
  namespace = s.namespace;
  partition = s.partition;
  weights = s.weights;
  tagged_addresses = s.tagged_addresses;
  check = build_check duration s.name h ready id loc;
  ai = false;
}

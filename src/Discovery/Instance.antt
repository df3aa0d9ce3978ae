-- ===== src/Discovery/Instance.antt =====
-- discovery/instance.go: one instance of a service, its endpoint, its weight, and the conversion of
-- a health entry of the official client. Strings are byte lists; a port is not negative.
use Prim.Native.Nat.{ℕ}
use consulx.Prelude.{
  Bool, true, false, List, [], ◌∷◌, ◌++◌, Text, codes, text_eq, ◌==◌, if◌then◌else◌, any_of, some,
  none,
}
use consulx.Prelude.Decimal.{itoa}
use consulx.Prelude.Dict.{Dict, lookup}
use consulx.Prelude.Int.{ℤ, max_ℤ}

abbrev pub status_warning : Text
status_warning = codes "warning"

pub record Port : Type 0 where
  pub name : Text
  pub port : ℕ
  pub is_default : Bool

pub record TaggedAddress : Type 0 where
  pub address : Text
  pub port : ℕ

pub record Weights : Type 0 where
  pub passing : ℤ
  pub warning : ℤ

pub record Node : Type 0 where
  pub id : Text
  pub name : Text
  pub address : Text
  pub datacenter : Text
  pub tagged_addresses : Dict Text
  pub meta : Dict Text

pub record Check : Type 0 where
  pub id : Text
  pub name : Text
  pub status : Text
  pub output : Text
  pub service_id : Text
  pub kind : Text

pub record ServiceInstance : Type 0 where
  pub id : Text
  pub name : Text
  pub address : Text
  pub port : ℕ
  pub ports : List Port
  pub scheme : Text
  pub tags : List Text
  pub meta : Dict Text
  pub tagged_addresses : Dict TaggedAddress
  pub weights : Weights
  pub datacenter : Text
  pub namespace : Text
  pub partition : Text
  pub node : Node
  pub status : Text
  pub checks : List Check

pub record Endpoint : Type 0 where
  pub id : Text
  pub node : Text
  pub address : Text
  pub port : ℕ
  pub scheme : Text
  pub host_port : Text
  pub url : Text

-- `net.JoinHostPort`: a host with a colon is put in brackets.
unfoldable pub join_host_port : Text → Text → Text
join_host_port host port =
    if any_of (λ c. c == b':') host
    then b'[' ∷ (host ++ (b']' ∷ (b':' ∷ port)))
    else host ++ (b':' ∷ port)

unfoldable pub host_port : ServiceInstance → Text
unfolding join_host_port itoa
host_port i = join_host_port i.address (itoa i.port)

unfoldable pub url : ServiceInstance → Text
unfolding host_port
url i = i.scheme ++ (codes "://" ++ host_port i)

unfoldable pub endpoint : ServiceInstance → Endpoint
unfolding host_port
endpoint i =
    let hp = host_port i in
    record {
      id = i.id;
      node = i.node.name;
      address = i.address;
      port = i.port;
      scheme = i.scheme;
      host_port = hp;
      url = i.scheme ++ (codes "://" ++ hp);
    }

port_in : Text → List Port → ℕ × Bool
port_in name [] = (0, false)
port_in name (p ∷ ps) =
    let rest = port_in name ps in if text_eq p.name name then (p.port, true) else rest

unfoldable pub port_named : ServiceInstance → Text → ℕ × Bool
unfolding port_in
port_named i name = port_in name i.ports

unfoldable pub weight : ServiceInstance → ℤ
weight i = if text_eq i.status status_warning then i.weights.warning else max_ℤ i.weights.passing 1

-- What `fromEntry` reads of `*api.ServiceEntry`, a type of the official client.
pub record HealthService : Type 0 where
  pub id : Text
  pub service : Text
  pub address : Text
  pub port : ℕ
  pub ports : List Port
  pub tags : List Text
  pub meta : Dict Text
  pub tagged_addresses : Dict TaggedAddress
  pub weights : Weights
  pub datacenter : Text
  pub namespace : Text
  pub partition : Text

-- `aggregated` is what the official client's `Checks.AggregatedStatus()` answers for the entry.
pub record ServiceEntry : Type 0 where
  pub node : Node
  pub service : HealthService
  pub checks : List Check
  pub aggregated : Text

-- `cmp.Or` on two strings.
abbrev pub or_text : Text → Text → Text
or_text [] b = b
or_text (x ∷ xs) b = x ∷ xs

-- The loop over `s.Ports` for an instance with no port: the last default entry wins.
default_port : ℕ → List Port → ℕ
default_port port [] = port
default_port port (p ∷ ps) = default_port (if p.is_default then p.port else port) ps

unfoldable pub from_entry : ServiceEntry → ServiceInstance
unfolding default_port
from_entry e = record {
  id = e.service.id;
  name = e.service.service;
  address = or_text e.service.address e.node.address;
  port = if e.service.port == 0 then default_port 0 e.service.ports else e.service.port;
  ports = e.service.ports;
  scheme = elim (lookup (codes "secure") e.service.meta) [
    | some v ↦ if text_eq v (codes "true") then codes "https" else codes "http"
    | none ↦ codes "http"
  ];
  tags = e.service.tags;
  meta = e.service.meta;
  tagged_addresses = e.service.tagged_addresses;
  weights = e.service.weights;
  datacenter = or_text e.service.datacenter e.node.datacenter;
  namespace = e.service.namespace;
  partition = e.service.partition;
  node = e.node;
  status = e.aggregated;
  checks = e.checks;
}

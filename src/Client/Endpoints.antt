-- ===== src/Client/Endpoints.antt =====
-- endpoint.go, resolvePort and resolveEndpoint, with checkServiceAddress of resolver.go. The sources of
-- an address come with their answers: asking them is I/O.
pub mod First
pub mod Sources
use consulx.Prelude.{
  ℕ, Bool, true, false, ◌&&◌, ◌||◌, not, List, [], ◌∷◌, ◌++◌, Option, none, some, Text, codes, ◌==◌,
  if◌then◌else◌, is_empty, any_of,
}
use consulx.Discovery.Instance.{Port}
use consulx.NetAddr.{Ip, is_wildcard, is_loopback}

-- `endpoint`: where other hosts reach this instance.
pub record Location : Type 0 where
  pub address : Text
  pub port : ℕ
  pub scheme : Text

-- Where `checkServiceAddress` finds fault.
abbrev pub is_break : ℕ → Bool
is_break c = c == 32 || (c == b'/' || (c == 9 || (c == 13 || c == 10)))

unfoldable pub usable : (Text → Option Ip) → Bool → Text → Bool
usable parse_ip allow_loopback addr =
    if is_wildcard parse_ip addr
    then false
    else if not allow_loopback && is_loopback parse_ip addr
    then false
    else not (any_of is_break addr)

pub data PortSource : Type 0 where
  from_config from_ports from_listener from_server : PortSource

pub data PortError : Type 0 where
  bad_server_address : PortError  -- of `Server.Addr`
  server_port_zero : PortError
  port_unknown : PortError

-- What `resolvePort` reads: the configured port and ports, the port of the listener if it is one of
-- TCP (0 otherwise), and what ParseListenAddress answers for the server's address. An outer `none`
-- says that there is no listener, or no server.
pub record Ports : Type 0 where
  pub port : ℕ
  pub ports : List Port
  pub listener : Option ℕ
  pub server : Option (Option ℕ)

pub data PortAnswer : Type 0 where
  is_port : ℕ → PortSource → PortAnswer
  no_port : PortError → PortAnswer

first_default : List Port → Option ℕ
first_default [] = none
first_default (p ∷ ps) = let rest = first_default ps in if p.is_default then some p.port else rest

server_port : Option (Option ℕ) → PortAnswer
server_port none = no_port port_unknown
server_port (some none) = no_port bad_server_address
server_port (some (some port)) =
    if port == 0 then no_port server_port_zero else is_port port from_server

listener_port : Option ℕ → PortAnswer → PortAnswer
listener_port none rest = rest
listener_port (some port) rest = if port == 0 then rest else is_port port from_listener

unfoldable pub resolve_port : Ports → PortAnswer
unfolding first_default server_port listener_port
resolve_port p =
    if not (p.port == 0) then is_port p.port from_config else elim (first_default p.ports) [
      | some port ↦ is_port port from_ports
      | none ↦ listener_port p.listener (server_port p.server)
    ]

-- A source of the chain: what it answers, and whether the context is over when it has answered.
pub record Source : Type 0 where
  pub name : Text
  pub answer : Option Text
  pub over : Bool

pub data AddressAnswer : Type 0 where
  address : Text → Text → AddressAnswer  -- the address and its source
  invalid : AddressAnswer  -- the ConfigError on Service.Address
  ctx_over : AddressAnswer

-- The chain: the application's resolver alone, or the variable, the server's host, the route to the
-- agent and the interfaces, as far as there are such.
unfoldable pub chain : Option Source → List Source → List Source
chain none defaults = defaults
chain (some resolver) defaults = resolver ∷ []

-- The loop over the chain.
unfoldable pub first_usable : (Text → Bool) → List Source → AddressAnswer
first_usable ok [] = invalid
first_usable ok (s ∷ ss) =
    let rest = first_usable ok ss in
    let next = if s.over then ctx_over else rest in
    elim s.answer [ none ↦ next | some addr ↦ if ok addr then address addr s.name else next ]

unfoldable pub resolve_address :
    (Text → Option Ip) → Bool → Text → Option Source → List Source → AddressAnswer
unfolding first_usable chain usable
resolve_address parse_ip allow_loopback configured resolver defaults =
    let ok = usable parse_ip allow_loopback in
    if not (is_empty configured)
    then (if ok configured then address configured (codes "config") else invalid)
    else first_usable ok (chain resolver defaults)

-- ===== src/Client/Endpoints/Sources.antt =====
-- resolver.go: the address resolvers of the package, over what the operating system and the network
-- answer, and FirstAddress, which tries several.
pub mod Order
use consulx.Prelude.{
  Bool, true, false, ◌&&◌, not, List, [], ◌∷◌, ◌++◌, Option, none, some, Text, if◌then◌else◌,
  is_empty,
}
use consulx.Prelude.Trim.{trim_space}
use consulx.NetAddr.{Ip, Interface, Filter, is_wildcard, is_loopback, select}
use consulx.Client.Endpoints.{Source}

unfoldable pub static_address : Text → Option Text
static_address addr = if is_empty addr then none else some addr

-- Of the variable's value, empty if it is not set.
unfoldable pub env_address : Text → Option Text
env_address value = let v = trim_space value in if is_empty v then none else some v

text_of : Option Ip → Option Text
text_of none = none
text_of (some a) = some a.text

unfoldable pub route_address : Option Ip → Option Text
unfolding text_of
route_address route = text_of route

-- `InterfaceFilter` has the fields of `Filter`.
unfoldable pub interface_address : Option (List Interface) → Filter → Option Text
unfolding text_of
interface_address none f = none
interface_address (some ifs) f = text_of (select ifs f)

-- The loop over the addresses of the host name.
unfoldable pub elsewhere : (Text → Option Ip) → List Text → Option Text
elsewhere parse_ip [] = none
elsewhere parse_ip (a ∷ addrs) =
    let rest = elsewhere parse_ip addrs in
    if not (is_loopback parse_ip a) && not (is_wildcard parse_ip a) then some a else rest

unfoldable pub hostname_address :
    (Text → Option Ip) → (Text → Option (List Text)) → Option Text → Option Text
hostname_address parse_ip lookup_host none = none
hostname_address parse_ip lookup_host (some host) = elim (lookup_host host) [
  | none ↦ none
  | some addrs ↦ elsewhere parse_ip addrs
]

-- An error is `some` address that was refused, or `none` for an error of the resolver itself.
pub data FirstAnswer : Type 0 where
  found : Text → FirstAnswer
  not_found : List (Option Text) → FirstAnswer
  ctx_error : FirstAnswer

-- The loop of `FirstAddress`, with the errors so far.
unfoldable pub first_from : (Text → Bool) → List (Option Text) → List Source → FirstAnswer
first_from ok errs [] = not_found errs
first_from ok errs (s ∷ ss) =
    let rest = first_from ok (errs ++ (s.answer ∷ [])) ss in
    let next = if s.over then ctx_error else rest in
    elim s.answer [ none ↦ next | some addr ↦ if ok addr then found addr else next ]

-- `ok` is `checkServiceAddress` without loopback.
unfoldable pub first_address : (Text → Bool) → List Source → FirstAnswer
first_address ok ss = first_from ok [] ss

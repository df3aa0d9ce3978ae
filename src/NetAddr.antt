-- ===== src/NetAddr.antt =====
-- internal/netaddr/netaddr.go: the tests on hosts, and the choice of an interface address.
-- `parse_ip` is `netip.ParseAddr`; what the code asks of an address is a record.
pub mod Choice
pub mod Listen
use consulx.Prelude.{
  ℕ, Bool, true, false, ◌&&◌, ◌||◌, not, List, [], ◌∷◌, ◌++◌, map, Option, none, some, Text, codes,
  text_eq, ◌==◌, if◌then◌else◌, is_empty, any_of,
}
use consulx.ServiceId.{to_lower}

pub record Ip : Type 0 where
  pub text : Text
  pub is6 : Bool
  pub is4in6 : Bool
  pub loopback : Bool
  pub unspecified : Bool
  pub link_local : Bool
  pub multicast : Bool
  pub private : Bool

unfoldable pub has_prefix : Text → Text → Bool
has_prefix [] t = true
has_prefix (c ∷ cs) [] = false
has_prefix (c ∷ cs) (d ∷ ds) = c == d && has_prefix cs ds

unfoldable pub has_suffix : Text → Text → Bool
has_suffix suffix [] = is_empty suffix
has_suffix suffix (c ∷ cs) =
    let rest = has_suffix suffix cs in if text_eq suffix (c ∷ cs) then true else rest

abbrev pub is_bracket : ℕ → Bool
is_bracket c = c == b'[' || c == b']'

left_bare : Text → Text
left_bare [] = []
left_bare (c ∷ cs) = let rest = left_bare cs in if is_bracket c then rest else c ∷ cs

right_bare : Text → Text
right_bare [] = []
right_bare (c ∷ cs) =
    let rest = right_bare cs in if is_empty rest && is_bracket c then [] else c ∷ rest

-- `strings.Trim(host, "[]")`.
unfoldable pub bare : Text → Text
unfolding left_bare right_bare
bare host = right_bare (left_bare host)

-- `strings.TrimSuffix(host, ".")`.
unfoldable pub trim_dot : Text → Text
trim_dot [] = []
trim_dot (c ∷ cs) = let rest = trim_dot cs in if is_empty cs && c == b'.' then [] else c ∷ rest

module _ (parse_ip : Text → Option Ip) where
  unfoldable pub is_wildcard : Text → Bool
  unfolding bare
  is_wildcard host =
      if is_empty host
      then true
      else elim (parse_ip (bare host)) [ none ↦ false | some a ↦ a.unspecified ]

  unfoldable pub is_loopback : Text → Bool
  unfolding bare trim_dot has_suffix to_lower
  is_loopback host =
      let h = map to_lower (trim_dot host) in
      if text_eq h (codes "localhost") || has_suffix (codes ".localhost") h
      then true
      else elim (parse_ip (bare h)) [ none ↦ false | some a ↦ a.loopback ]

  unfoldable pub is_ipv6 : Text → Bool
  unfolding bare
  is_ipv6 host = elim (parse_ip (bare host)) [ none ↦ false | some a ↦ a.is6 && not a.is4in6 ]

pub record Interface : Type 0 where
  pub name : Text
  pub up : Bool
  pub loop : Bool
  pub addrs : List Ip

pub record Filter : Type 0 where
  pub name : Text
  pub ipv6 : Bool
  pub public : Bool

abbrev pub virtual_prefixes : List Text
virtual_prefixes =
    codes "docker"
    ∷ codes "br-"
    ∷ codes "veth"
    ∷ codes "virbr"
    ∷ codes "vmnet"
    ∷ codes "vboxnet"
    ∷ codes "cni"
    ∷ codes "flannel"
    ∷ codes "cali"
    ∷ codes "weave"
    ∷ codes "kube-"
    ∷ codes "lxc"
    ∷ codes "lxd"
    ∷ codes "podman"
    ∷ codes "tailscale"
    ∷ codes "zt"
    ∷ codes "vethernet"
    ∷ codes "utun"
    ∷ codes "awdl"
    ∷ codes "llw"
    ∷ []

prefixed_by : List Text → Text → Bool
prefixed_by [] n = false
prefixed_by (p ∷ ps) n = let rest = prefixed_by ps n in if has_prefix p n then true else rest

unfoldable pub is_virtual : Text → Bool
unfolding prefixed_by
is_virtual name = prefixed_by virtual_prefixes (map to_lower name)

-- The tests that skip an interface.
unfoldable pub skipped : Filter → Interface → Bool
unfolding is_virtual
skipped f ifc =
    if not ifc.up || ifc.loop
    then true
    else if not (is_empty f.name)
    then not (text_eq ifc.name f.name)
    else is_virtual ifc.name

same_flag : Bool → Bool → Bool
same_flag true b = b
same_flag false b = not b

-- The tests on one address.
unfoldable pub chosen : Filter → Ip → Bool
unfolding same_flag
chosen f a =
    if not (same_flag a.is6 f.ipv6)
      || (a.loopback || (a.unspecified || (a.link_local || a.multicast)))
    then false
    else same_flag a.private (not f.public)

unfoldable pub first_chosen : Filter → List Ip → Option Ip
first_chosen f [] = none
first_chosen f (a ∷ addrs) = let rest = first_chosen f addrs in if chosen f a then some a else rest

-- `Select`; `none` is ErrNoAddress.
unfoldable pub select : List Interface → Filter → Option Ip
unfolding first_chosen skipped chosen
select [] f = none
select (ifc ∷ ifs) f =
    let rest = select ifs f in
    if skipped f ifc
    then rest
    else elim (first_chosen f ifc.addrs) [ none ↦ rest | some a ↦ some a ]

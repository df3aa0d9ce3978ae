-- ===== src/Config/Target.antt =====
-- resolver.go and apiclient.go: the scheme towards the agent, and the agent's host and port for the
-- detection of the route.
use consulx.Prelude.{
  false, ◌||◌, [], Option, none, some, Text, codes, text_eq, if◌then◌else◌, is_empty, any_of, ◌==◌,
  ◌≡◌, ◌⊎◌, inl, inr, refl, Option-cases, if_both,
}
use consulx.NetAddr.{has_prefix, bare}
use consulx.NetAddr.Listen.{split_host_port, Bare, split_host_port-join_host_port}
use consulx.Discovery.Instance.{join_host_port}
use consulx.Config.{ConsulConfig}
use consulx.Config.Address.{cut_at, before_slash}

unfoldable pub consul_scheme : ConsulConfig → Text
unfolding has_prefix
consul_scheme c =
    if has_prefix (codes "https://") c.address || c.tls.enabled
    then codes "https"
    else if is_empty c.scheme
    then codes "http"
    else c.scheme

-- The scheme and what stands behind it.
unfoldable pub parts_of : ConsulConfig → Text × Text
parts_of c = elim (cut_at (codes "://") c.address) [
  | none ↦ (consul_scheme c, c.address)
  | some parts ↦ parts
]

unfoldable pub default_port : Text → ConsulConfig → Text
default_port scheme c =
    if text_eq scheme (codes "https") || text_eq (consul_scheme c) (codes "https")
    then codes "8501"
    else codes "8500"

ported : Text → ConsulConfig → Text → Option (Text × Text) → Text
ported scheme c host (some parts) = host
ported scheme c host none = join_host_port (bare host) (default_port scheme c)

unfoldable pub with_port : Text → ConsulConfig → Text → Text
unfolding ported
with_port scheme c host = ported scheme c host (split_host_port host)

-- `consulTarget`: empty for a socket.
unfoldable pub consul_target : ConsulConfig → Text
unfolding with_port
consul_target c =
    let parts = parts_of c in
    if text_eq parts.0 (codes "unix") then [] else with_port parts.0 c (before_slash parts.1)

default_port-plain :
    (scheme : Text) (c : ConsulConfig)
    → (any_of (λ x. x == b':') (default_port scheme c) ≡ false) × Bare (default_port scheme c)
unfolding default_port
default_port-plain scheme c =
    if_both (λ (t : Text). (any_of (λ x. x == b':') t ≡ false) × Bare t)
      (text_eq scheme (codes "https") || text_eq (consul_scheme c) (codes "https")) (refl, refl)
      (refl, refl)

-- What the target splits into: the host and the port as the address has them, or the host of the address
-- with the default port.
abbrev pub IsTarget : ConsulConfig → Text × Text → Type 0
IsTarget c parts =
    (split_host_port (before_slash (parts_of c).1) ≡ some parts)
    ⊎ (parts ≡ (bare (before_slash (parts_of c).1), default_port (parts_of c).0 c))

with_port-split :
    (scheme : Text) (c : ConsulConfig) (host : Text)
    → Bare (bare host)
    → (parts : Text × Text) × (split_host_port (with_port scheme c host) ≡ some parts)
      × ((split_host_port host ≡ some parts) ⊎ (parts ≡ (bare host, default_port scheme c)))
unfolding with_port
with_port-split scheme c host b = elim (Option-cases (split_host_port host)) [
  | inl e ↦
      let plain = default_port-plain scheme c in
      (
        (bare host, default_port scheme c),
        rw e (split_host_port-join_host_port (bare host) (default_port scheme c) b plain.0 plain.1),
        inr refl,
      )
  | inr (parts, e) ↦ (parts, rw e e, inl e)
]

-- Unless the agent is behind a socket, the route is asked for a host and a port: those of the address,
-- or, where it names no port, its host with 8501 under https and 8500 otherwise. The host has no bracket
-- but around it.
pub consul_target-split :
    (c : ConsulConfig)
    → text_eq (parts_of c).0 (codes "unix") ≡ false
    → Bare (bare (before_slash (parts_of c).1))
    → (parts : Text × Text) × (split_host_port (consul_target c) ≡ some parts) × IsTarget c parts
unfolding consul_target
consul_target-split c socket b =
    rw (socket, consul_target) (with_port-split (parts_of c).0 c (before_slash (parts_of c).1) b)

-- ===== src/Client/Endpoints/First.antt =====
-- An instance is never registered under an address that other hosts cannot use.
use consulx.Prelude.{
  Bool, true, false, not, ◌&&◌, List, [], ◌∷◌, Option, none, some, Text, codes, if◌then◌else◌,
  is_empty, ◌≡◌, arith, any_of, Bool-cases, inl, inr, if_both,
}
use consulx.NetAddr.{Ip, is_wildcard, is_loopback}
use consulx.Client.Endpoints.{
  usable, is_break, Source, AddressAnswer, address, invalid, ctx_over, chain, first_usable,
  resolve_address,
}

module _ (parse_ip : Text → Option Ip) (allow_loopback : Bool) where
  -- What is promised of a registered address.
  abbrev pub Reachable : AddressAnswer → Type 0
  Reachable (address addr source) =
      (is_wildcard parse_ip addr ≡ false)
      × ((not allow_loopback && is_loopback parse_ip addr) ≡ false)
      × (any_of is_break addr ≡ false)
  Reachable invalid = Unit
  Reachable ctx_over = Unit

  usable-Reachable :
      (addr source : Text)
      → usable parse_ip allow_loopback addr ≡ true
      → Reachable (address addr source)
  unfolding usable
  usable-Reachable addr source h = ground (arith, h)

  first_usable-Reachable :
      (ss : List Source) → Reachable (first_usable (usable parse_ip allow_loopback) ss)
  unfolding first_usable
  first_usable-Reachable [] = tt
  first_usable-Reachable (s ∷ ss) =
      by_answer s.answer (if_both Reachable s.over tt (first_usable-Reachable ss))
    where
      by_answer :
          (o : Option Text)
          → Reachable
              (if s.over then ctx_over else first_usable (usable parse_ip allow_loopback) ss)
          → Reachable (elim o [
            | none ↦ if s.over then ctx_over else first_usable (usable parse_ip allow_loopback) ss
            | some addr ↦
                if usable parse_ip allow_loopback addr
                then address addr s.name
                else if s.over
                then ctx_over
                else first_usable (usable parse_ip allow_loopback) ss
          ])
      by_answer none h = h
      by_answer (some addr) h = elim (Bool-cases (usable parse_ip allow_loopback addr)) [
        | inl e ↦ rw e (usable-Reachable addr s.name e)
        | inr e ↦ rw e h
      ]

  -- Whatever the configuration, the application's resolver or the default sources answer, an address
  -- that is resolved is no wildcard, is loopback only if that is allowed, and has no blank and no
  -- slash.
  pub resolve_address-Reachable :
      (configured : Text) (resolver : Option Source) (defaults : List Source)
      → Reachable (resolve_address parse_ip allow_loopback configured resolver defaults)
  unfolding resolve_address
  resolve_address-Reachable configured resolver defaults =
      if_both Reachable (not (is_empty configured)) at_config
        (first_usable-Reachable (chain resolver defaults))
    where
      at_config : Reachable (
          if usable parse_ip allow_loopback configured
          then address configured (codes "config")
          else invalid)
      at_config = elim (Bool-cases (usable parse_ip allow_loopback configured)) [
        | inl e ↦ rw e (usable-Reachable configured (codes "config") e)
        | inr e ↦ rw e tt
      ]

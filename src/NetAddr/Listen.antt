-- ===== src/NetAddr/Listen.antt =====
-- internal/netaddr/netaddr.go: ParseListenAddress, over net.SplitHostPort. `lookup_port` is
-- LookupPort of the resolver, for a port with a name.
use consulx.Prelude.{
  ℕ, ◌≤◌, Bool, false, ◌&&◌, ◌||◌, not, [], ◌∷◌, ◌++◌, Option, none, some, Text, codes, ◌==◌,
  if◌then◌else◌, is_empty, any_of, ◌≡◌, refl, arith, Bool-cases, inl, inr,
}
use consulx.Prelude.Predicates.{All}
use consulx.Prelude.Cut.{
  Without, cut_char, cut_last, cut_char-append, cut_last-append, any_of-append, any_of-Without,
}
use consulx.Prelude.Strconv.{atoi, atoi-itoa}
use consulx.Prelude.Decimal.{itoa, itoa-digits, itoa-is_empty, IsDigit}
use consulx.Prelude.Int.{ℤ, pos, ltb_ℤ, ◌≤ℤ◌}
use consulx.Discovery.Instance.{join_host_port}
use consulx.NetAddr.{is_bracket}

abbrev pub is_colon : ℕ → Bool
is_colon c = c == b':'

-- What stands behind the bracket: a colon, and a port without a colon or a bracket.
port_behind : Text → Text → Option (Text × Text)
port_behind host [] = none
port_behind host (c ∷ port) =
    if c == b':'
      && (not (any_of is_colon port)
          && not (any_of is_bracket port || any_of (λ x. x == b'[') host))
    then some (host, port)
    else none

-- `net.SplitHostPort`; `none` for its errors.
unfoldable pub split_host_port : Text → Option (Text × Text)
unfolding port_behind
split_host_port [] = none
split_host_port (c ∷ cs) =
    if c == b'['
    then (elim (cut_char b']' cs) [ none ↦ none | some (host, after) ↦ port_behind host after ])
    else elim (cut_last b':' (c ∷ cs)) [
      | none ↦ none
      | some (host, port) ↦
          if any_of is_colon host || any_of is_bracket (c ∷ cs) then none else some (host, port)
    ]

in_range : Text → ℤ → Option (Text × ℤ)
in_range host port =
    if ltb_ℤ port (pos 0) || ltb_ℤ (pos 65535) port then none else some (host, port)

port_number : (Text → Option ℤ) → Text → Option ℤ
port_number lookup_port p = if (atoi p).1 then some (atoi p).0 else lookup_port p

listen_port : (Text → Option ℤ) → Text → Text → Option (Text × ℤ)
unfolding in_range port_number
listen_port lookup_port host p =
    if is_empty p
    then none
    else elim (port_number lookup_port p) [ none ↦ none | some port ↦ in_range host port ]

listen_parts : (Text → Option ℤ) → Option (Text × Text) → Option (Text × ℤ)
unfolding listen_port
listen_parts lookup_port none = none
listen_parts lookup_port (some (host, p)) = listen_port lookup_port host p

unfoldable pub parse_listen_address : (Text → Option ℤ) → Text → Option (Text × ℤ)
unfolding listen_parts
parse_listen_address lookup_port addr =
    listen_parts lookup_port (split_host_port (if is_empty addr then codes ":http" else addr))

-- No bracket in the text.
abbrev pub Bare : Text → Type 0
Bare t = any_of is_bracket t ≡ false

Bare-open : (t : Text) → Bare t → any_of (λ x. x == b'[') t ≡ false
Bare-open [] h = refl
Bare-open (c ∷ t) h = ground (arith, h, Bare-open t)

Bare-close : (t : Text) → Bare t → Without b']' t
Bare-close [] h = tt
Bare-close (c ∷ t) h = (ground (arith, h), Bare-close t (ground (arith, h)))

split_bracketed :
    (host port : Text)
    → Bare host
    → any_of is_colon port ≡ false
    → Bare port
    → split_host_port (b'[' ∷ (host ++ (b']' ∷ (b':' ∷ port)))) ≡ some (host, port)
unfolding split_host_port
split_bracketed host port h c p =
    rw (cut_char-append b']' host (b':' ∷ port) (Bare-close host h))
      (rw (c, p, Bare-open host h) refl)

-- A host without a colon in front of a port.
split_plain_at :
    (t host port : Text)
    → (cut_last b':' t ≡ some (host, port))
    → any_of is_colon host ≡ false
    → Bare t
    → split_host_port t ≡ some (host, port)
unfolding split_host_port
split_plain_at [] host port e h b = unfold cut_last in absurd (cc)
split_plain_at (c ∷ cs) host port e h b = ground (arith, e, h, b)

-- The host and the port that are joined are split again. The host has no bracket, the port neither a
-- colon nor a bracket.
pub split_host_port-join_host_port :
    (host port : Text)
    → Bare host
    → any_of is_colon port ≡ false
    → Bare port
    → split_host_port (join_host_port host port) ≡ some (host, port)
unfolding join_host_port
split_host_port-join_host_port host port h c p = elim (Bool-cases (any_of is_colon host)) [
  | inl e ↦ rw e (split_bracketed host port h c p)
  | inr e ↦ rw e (
      split_plain_at (host ++ (b':' ∷ port)) host port
        (cut_last-append b':' host port (any_of-Without b':' port c)) e
        (rw (any_of-append is_bracket host (b':' ∷ port), h) p))
]

digits-plain : (t : Text) → All IsDigit t → (any_of is_colon t ≡ false) × Bare t
digits-plain [] h = (refl, refl)
digits-plain (c ∷ t) h = ground (arith, h.0, digits-plain t h.1)

join-is_empty : (host port : Text) → is_empty (join_host_port host port) ≡ false
unfolding join_host_port
join-is_empty [] port = refl
join-is_empty (c ∷ host) port = ground arith

listen_port-itoa :
    (lookup_port : Text → Option ℤ) (host : Text) (n : ℕ)
    → n ≤ 65535
    → listen_port lookup_port host (itoa n) ≡ some (host, pos n)
unfolding listen_port
listen_port-itoa lookup_port host n h =
    rw (itoa-is_empty n, atoi-itoa n (omega arith)) (ground (arith, h))

-- A listen address reads back the host and the port that it was joined of, without a lookup. The host
-- has no bracket, and the port is one.
pub parse_listen_address-join_host_port :
    (lookup_port : Text → Option ℤ) (host : Text) (n : ℕ)
    → Bare host
    → n ≤ 65535
    → parse_listen_address lookup_port (join_host_port host (itoa n)) ≡ some (host, pos n)
unfolding parse_listen_address
parse_listen_address-join_host_port lookup_port host n h b =
    let plain = digits-plain (itoa n) (itoa-digits n) in
    rw (join-is_empty host (itoa n)) (
      rw (split_host_port-join_host_port host (itoa n) h plain.0 plain.1)
        (listen_port-itoa lookup_port host n b))

listen_parts_bounds :
    (lookup_port : Text → Option ℤ) (parts : Option (Text × Text)) (host : Text) (port : ℤ)
    → listen_parts lookup_port parts ≡ some (host, port)
    → (pos 0 ≤ℤ port) × (port ≤ℤ pos 65535)
unfolding listen_parts listen_port in_range
listen_parts_bounds lookup_port none host port h = cc
listen_parts_bounds lookup_port (some (given, p)) host port h = ground (arith, h)

-- Whatever the lookup answers, a port that is parsed is one.
pub parse_listen_address_bounds :
    (lookup_port : Text → Option ℤ) (addr host : Text) (port : ℤ)
    → parse_listen_address lookup_port addr ≡ some (host, port)
    → (pos 0 ≤ℤ port) × (port ≤ℤ pos 65535)
unfolding parse_listen_address
parse_listen_address_bounds lookup_port addr host port h =
    listen_parts_bounds lookup_port
      (split_host_port (if is_empty addr then codes ":http" else addr)) host port h

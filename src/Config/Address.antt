-- ===== src/Config/Address.antt =====
-- config.go, `validateConsulAddress`: the address of the agent.
use consulx.Prelude.{
  Bool, ◌||◌, [], ◌∷◌, Option, none, some, Text, codes, text_eq, ◌==◌, if◌then◌else◌, is_empty,
  length, drop,
}
use consulx.NetAddr.{has_prefix}

pub data AddressProblem : Type 0 where
  socket_path_empty host_empty host_invalid : AddressProblem
  scheme_unsupported : Text → AddressProblem

-- `strings.Cut`.
unfoldable pub cut_at : Text → Text → Option (Text × Text)
cut_at sep [] = if is_empty sep then some ([], []) else none
cut_at sep (c ∷ cs) =
    let rest = cut_at sep cs in
    if has_prefix sep (c ∷ cs)
    then some ([], drop (length sep) (c ∷ cs))
    else elim rest [ none ↦ none | some (before, after) ↦ some (c ∷ before, after) ]

-- The text before the first slash.
unfoldable pub before_slash : Text → Text
before_slash [] = []
before_slash (c ∷ cs) = let rest = before_slash cs in if c == b'/' then [] else c ∷ rest

-- The scheme and the rest of an address; no scheme is the empty one.
unfoldable pub scheme_and_rest : Text → Text × Text
scheme_and_rest addr = elim (cut_at (codes "://") addr) [ none ↦ ([], addr) | some parts ↦ parts ]

check_host : (Text → Bool) → Text → Option AddressProblem
check_host url_ok host =
    if is_empty host then some host_empty else if url_ok host then none else some host_invalid

unfoldable pub validate_consul_address : (Text → Bool) → Text → Option AddressProblem
unfolding scheme_and_rest check_host
validate_consul_address url_ok addr =
    let parts = scheme_and_rest addr in
    if text_eq parts.0 (codes "unix")
    then (if is_empty parts.1 then some socket_path_empty else none)
    else if is_empty parts.0 || (text_eq parts.0 (codes "http") || text_eq parts.0 (codes "https"))
    then check_host url_ok (before_slash parts.1)
    else some (scheme_unsupported parts.0)

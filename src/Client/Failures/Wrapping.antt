-- ===== src/Client/Failures/Wrapping.antt =====
-- Wrapping an error for its operation keeps what callers ask of it.
use consulx.Prelude.{◌||◌, not, Option, none, some, ◌≡◌, arith, is_some}
use consulx.Client.Failures.{
  Sentinel, invalid_configuration, unsupported_feature, registration_failed, deregistration_failed,
  not_registered, consul_unavailable, Failure, is, op_error, is_permanent,
}

-- The operations that errors are wrapped for.
abbrev pub IsOperation : Option Sentinel → Type 0
IsOperation none = Unit
IsOperation (some registration_failed) = Unit
IsOperation (some deregistration_failed) = Unit
IsOperation (some invalid_configuration) = ⊥
IsOperation (some unsupported_feature) = ⊥
IsOperation (some not_registered) = ⊥
IsOperation (some consul_unavailable) = ⊥

-- `opError` for a registration, a deregistration or no operation: the error is permanent exactly if
-- its cause is, it has the HTTP status of its cause, and it counts as "Consul unavailable" exactly if
-- its cause does or has no HTTP status.
pub op_error-is_permanent :
    (op : Option Sentinel) (e : Failure)
    → IsOperation op
    → (is_permanent (op_error op e) ≡ is_permanent e)
      × ((op_error op e).status ≡ e.status)
      × (is consul_unavailable (op_error op e).chain
          ≡ (is consul_unavailable e.chain || not (is_some e.status)))
unfolding op_error is_permanent is
op_error-is_permanent none e h = ground arith
op_error-is_permanent (some registration_failed) e h = ground arith
op_error-is_permanent (some deregistration_failed) e h = ground arith
op_error-is_permanent (some invalid_configuration) e h = absurd h
op_error-is_permanent (some unsupported_feature) e h = absurd h
op_error-is_permanent (some not_registered) e h = absurd h
op_error-is_permanent (some consul_unavailable) e h = absurd h

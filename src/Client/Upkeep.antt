-- ===== src/Client/Upkeep.antt =====
-- reliability.go, runRegistrar with watchRegistration and waitUnavailable, and the heartbeat: what the
-- tasks do with each answer, one at a time. Here no other goroutine runs between the load and the swap
-- of a state change (`Lifecycle` lets them).
pub mod Outage
use consulx.Prelude.{
  ℕ, suc, Bool, true, false, ◌&&◌, ◌||◌, not, List, [], ◌∷◌, ◌++◌, Option, none, some, Text, codes,
  ltb, ◌==◌, if◌then◌else◌, is_empty,
}
use consulx.Health.{Status, up, degraded, down, other}
use consulx.Client.Lifecycle.{State, degraded_from, running_from}
use consulx.Client.Failures.{Failure, op_error, is_status, ttl_status}

-- The registrar: the state of the client, whether the service is registered, the failed watches in a
-- row, the errors that were reported, and the transitions to Running that count as a reconnection.
pub record Registrar : Type 0 where
  pub state : State
  pub registered : Bool
  pub failures : ℕ
  pub reported : List Failure
  pub reconnects : ℕ

-- What the registrar does next: register, watch, wait and then watch, or return.
pub data Next : Type 0 where
  register_next : Next
  watch_next : Next
  wait_next : ℕ → Next
  return_next : Next

-- `setDegraded` and `setRunning`.
abbrev or_same : State → Option State → State
or_same s none = s
or_same s (some t) = t

unfoldable pub to_degraded : Registrar → Registrar
to_degraded r = record r { state = or_same r.state (degraded_from r.state) }

unfoldable pub to_running : Registrar → Registrar
to_running r = record r { state = or_same r.state (running_from r.state) }

abbrev pub is_degraded : State → Bool
is_degraded State.degraded = true
is_degraded State.idle = false
is_degraded State.starting = false
is_degraded State.running = false
is_degraded State.stopping = false
is_degraded State.stopped = false

counted : Registrar → Registrar
counted r = if is_degraded r.state then record r { reconnects = suc r.reconnects } else r

-- `registerWithRetry` returned: an error, or nil.
unfoldable pub on_registered : Registrar → Option Failure → Bool → Registrar × Next
unfolding counted to_running running_from
on_registered r (some e) ctx_over =
    if ctx_over
    then (r, return_next)
    else (record r { reported = r.reported ++ (e ∷ []) }, return_next)
on_registered r none ctx_over =
    (record (to_running (counted r)) { registered = true; failures = 0 }, watch_next)

-- The answer to one request of the watch, or the end of the context.
pub data Reply : Type 0 where
  present : Reply
  failed : Failure → Reply
  ctx_ended : Reply

-- `waitUnavailable`, after the count. `reported` is what `report` is called with, which drops it when
-- 32 errors wait.
wait_unavailable : (ℕ → Option ℕ) → ℕ → Registrar → Failure → Registrar × Next
unfolding to_degraded degraded_from
wait_unavailable retry max_delay r e =
    let r' = to_degraded r in
    let r'' =
      if r'.failures == 1
      then record r' { reported = r'.reported ++ (op_error none e ∷ []) }
      else r' in
    (r'', wait_next (elim (retry r'.failures) [ none ↦ max_delay | some d ↦ d ]))

unfoldable pub on_reply : (ℕ → Option ℕ) → ℕ → Registrar → Reply → Registrar × Next
unfolding counted to_running running_from to_degraded degraded_from wait_unavailable
on_reply retry max_delay r ctx_ended = (r, return_next)
on_reply retry max_delay r present =
    let healthy = record r { failures = 0 } in
    (if is_degraded healthy.state then to_running (counted healthy) else healthy, watch_next)
on_reply retry max_delay r (failed e) =
    if is_status e 404
    then (to_degraded (record r { registered = false }), register_next)
    else wait_unavailable retry max_delay (record r { failures = suc r.failures }) e

-- `heartbeat`: the update that is sent, if any: the check, the output, and the check status.
unfoldable pub heartbeat : Bool → Text → (Status → Text) → Status → Option (Text × Text × Text)
heartbeat registered check_id name_of ready =
    if not registered || is_empty check_id
    then none
    else some (check_id, codes "ConsulX heartbeat: " ++ name_of ready, ttl_status ready)

-- `notifyHealthChanged` on the channel of capacity one: whether a signal waits.
abbrev pub notify_health_changed : Bool → Bool
notify_health_changed waiting = true

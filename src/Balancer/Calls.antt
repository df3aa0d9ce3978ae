-- ===== src/Balancer/Calls.antt =====
-- balancer/balancer.go: entry, current, Next and NextEndpoint, and the resolver bound to a service.
pub mod Agree
pub mod Post
pub mod Outcome
use consulx.Prelude.{
  ℕ, zero, suc, ◌+◌, Bool, true, false, ◌||◌, ◌&&◌, List, [], ◌∷◌, Option, none, some, Text, ◌==◌,
  ltb, if◌then◌else◌, length, get_elem?, is_empty,
}
use consulx.Prelude.Dict.{Dict, lookup, insert}
use consulx.Discovery.Instance.{ServiceInstance, Endpoint, endpoint}
use consulx.Discovery.Snapshot.{Snapshot, instances, pick_endpoint}
use consulx.Balancer.{
  Picker, Entry, Balancer, Error, err_closed, not_found, ctx_err, watch_failed, panicked,
}
use consulx.Balancer.Pick.{Picked, at_index, foreign, pick_index, pick}
use consulx.Balancer.Ejection.{available, subset, offered, eject_now}
use consulx.Balancer.Grace.{with_grace}

pub data Result (A : Type 0) : Type 0 where
  ok : A → Result A
  err : Error → Result A

-- Which case of the `select` of `current` fires.
pub data Arrival : Type 0 where
  is_ready ctx_over watch_over : Arrival

-- What a call reads of the world around it: the clock (twice), the random numbers, the error of
-- `Query.Watch` for a service, the case that fires in each attempt, the state of the watch when it is
-- ready, and what other goroutines did to the balancer before a second attempt.
pub record Env : Type 0 where
  pub now : ℕ
  pub later : ℕ
  pub draw : ℕ → ℕ
  pub watch_error : Text → Option Text
  pub arrival : ℕ → Arrival
  pub snapshot : Snapshot
  pub meanwhile : Balancer → Balancer

abbrev pub is_closed : Balancer → Bool
is_closed b = b.closed || b.ctx_done

abbrev pub store : Balancer → Text → Entry → Balancer
store b service e = record b { services = insert service e b.services }

unfoldable pub new_entry : Balancer → ℕ → Entry
new_entry b now = record {
  picker = b.strategy;
  last_used = now;
  last = none;
  last_seen = 0;
  ejection = [];
}

-- The part of `entry` under the lock. It looks again, since another goroutine may have created the
-- entry meanwhile.
unfoldable pub entry_locked : Env → Balancer → Text → Balancer × Result Entry
unfolding new_entry
entry_locked env b service =
    if is_closed b then (b, err err_closed) else elim (lookup service b.services) [
      | some e ↦ let e' = record e { last_used = env.now } in (store b service e', ok e')
      | none ↦ elim (env.watch_error service) [
        | some cause ↦ (b, err (watch_failed cause))
        | none ↦
            let e = new_entry b env.now in
            (record (store b service e) { janitor = b.janitor || ltb 0 b.idle }, ok e)
      ]
    ]

unfoldable pub entry : Env → Balancer → Text → Balancer × Result Entry
unfolding entry_locked
entry env b service =
    if is_closed b then (b, err err_closed) else elim (lookup service b.services) [
      | some e ↦ let e' = record e { last_used = env.now } in (store b service e', ok e')
      | none ↦ entry_locked env b service
    ]

abbrev pub Current : Type 0
Current = Balancer × Result (Entry × Snapshot)

-- `case <-e.watch.Ready()`.
on_ready : Env → Balancer → Text → Entry → Current
on_ready env b service e =
    let (e', s) = with_grace e env.snapshot b.grace env.now in (store b service e', ok (e', s))

-- One round of the loop of `current`, with what follows when the watch is over.
await : Env → Text → ℕ → (Balancer → Current) → Balancer × Result Entry → Current
unfolding on_ready
await env service attempt over (b, err x) = (b, err x)
await env service attempt over (b, ok e) = elim (env.arrival attempt) [
  | is_ready ↦ on_ready env b service e
  | ctx_over ↦ (b, err ctx_err)
  | watch_over ↦ over b
]

-- A watch that is over in the second attempt: the balancer is closed.
give_up : Balancer → Current
give_up b = (b, err err_closed)

-- A watch that is over in the first attempt was released as idle, unless the balancer is closed.
try_again : Env → Text → Balancer → Current
unfolding await give_up entry
try_again env service b =
    let b' = env.meanwhile b in
    if is_closed b'
    then (b', err err_closed)
    else await env service 1 give_up (entry env b' service)

unfoldable pub current : Env → Balancer → Text → Current
unfolding await try_again entry
current env b service = await env service 0 (try_again env service) (entry env b service)

abbrev answer :
    Balancer → Text → Entry → Option ServiceInstance × Picker → Balancer × Result ServiceInstance
answer b service e (chosen, p) =
    (store b service (record e { picker = p }), elim chosen [ none ↦ err panicked | some i ↦ ok i ])

-- What `Next` does with the state that `current` found.
unfoldable pub next_in : Env → Text → Current → Balancer × Result ServiceInstance
next_in env service (b, err x) = (b, err x)
next_in env service (b, ok (e, s)) =
    let now = eject_now b env.later in
    let list = instances s in
    if is_empty list
    then (b, err (not_found service))
    else answer b service e
        (pick env.draw e.picker (if now == 0 then list else offered e.ejection list now))

unfoldable pub next : Env → Balancer → Text → Balancer × Result ServiceInstance
unfolding next_in
next env b service = next_in env service (current env b service)

-- The index of a selection among the instances that are kept, in the full list. `none` is an index
-- out of range.
in_full : List ℕ → Picked × Picker → Option Picked × Picker
in_full keep (at_index i, p) =
    (elim (get_elem? keep i) [ none ↦ none | some k ↦ some (at_index k) ], p)
in_full keep (foreign inst, p) = (some (foreign inst), p)

-- The function that `NextEndpoint` gives to `PickEndpoint`.
unfoldable pub choose : Env → Entry → ℕ → List ServiceInstance → Option Picked × Picker
unfolding in_full
choose env e now list =
    let whole = pick_index env.draw e.picker list in
    if now == 0 then (some whole.0, whole.1) else elim (available e.ejection list now) [
      | none ↦ (some whole.0, whole.1)
      | some keep ↦ in_full keep (pick_index env.draw e.picker (subset list keep))
    ]

endpoint_answer : Snapshot → Text → Option Picked → Result Endpoint
endpoint_answer s service none = err panicked
endpoint_answer s service (some (foreign inst)) = ok (endpoint inst)
endpoint_answer s service (some (at_index k)) = elim (pick_endpoint s (λ list. some k)) [
  | none ↦ err (not_found service)
  | some ep ↦ ok ep
]

unfoldable pub next_endpoint_in : Env → Text → Current → Balancer × Result Endpoint
unfolding endpoint_answer
next_endpoint_in env service (b, err x) = (b, err x)
next_endpoint_in env service (b, ok (e, s)) =
    let list = instances s in
    if is_empty list
    then (b, err (not_found service))
    else let (picked, p) = choose env e (eject_now b env.later) list in
      (store b service (record e { picker = p }), endpoint_answer s service picked)

unfoldable pub next_endpoint : Env → Balancer → Text → Balancer × Result Endpoint
unfolding next_endpoint_in
next_endpoint env b service = next_endpoint_in env service (current env b service)

host_port_of : Balancer × Result Endpoint → Balancer × Result Text
host_port_of (b, err x) = (b, err x)
host_port_of (b, ok ep) = (b, ok ep.host_port)

-- `ServiceResolver.Resolve`.
unfoldable pub resolve : Env → Balancer → Text → Balancer × Result Text
unfolding host_port_of
resolve env b service = host_port_of (next_endpoint env b service)

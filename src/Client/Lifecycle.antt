-- ===== src/Client/Lifecycle.antt =====
-- lifecycle.go and the state changes of reliability.go. Start and Stop hold one lock from their first
-- line to their last, so at most one of them is under way, and `op` says how far it is. The registrar
-- is one goroutine; `setDegraded` and `setRunning` load the state, and swap it later: in between, the
-- other goroutines go on. The heartbeat task changes no state and stands for part of `task`.
pub mod Steps
pub mod Moments
pub mod Safety
pub mod Progress
use consulx.Prelude.{
  ℕ, suc, ◌+◌, Bool, true, false, ◌||◌, List, [], ◌∷◌, ◌++◌, Option, none, some, Text, ltb,
  if◌then◌else◌, length,
}

pub data State : Type 0 where
  idle starting running degraded stopping stopped : State

-- How far the holder of the operation lock is.
pub data Op : Type 0 where
  free : Op
  registering : Op  -- Start, in `start`
  started : Op  -- Start, after `start` returned nil
  settling : Op  -- Start, having read StateStarting
  marking : Op  -- Stop, after `setState`
  cancelling : Op  -- Stop, after `SetDraining`
  waiting : Op  -- Stop, up to the end of `wg.Wait`
  shutting_down : Op  -- Stop, in `shutdown`
  finishing : Op  -- in `finish`, at its first line
  released : Op  -- in `finish`, after `closeServices`
  announced : Op  -- in `finish`, after `setState`
  shut : Op  -- in `finish`, after the errors were closed

-- The registrar: not launched, at work, between the load and the swap of `setDegraded` or
-- `setRunning` (with the state it will set), or returned.
pub data Task : Type 0 where
  absent active : Task
  swapping : State → Task
  returned : Task

pub record Client : Type 0 where
  pub state : State
  pub op : Op
  pub task : Task
  pub cancelled : Bool
  pub draining : Bool
  pub services_closed : Bool
  pub errs : List Text
  pub err_closed : Bool
  pub dropped : ℕ
  pub closes : ℕ  -- how often `done` was closed; a second time would panic

unfoldable pub new_lifecycle : Client
new_lifecycle = record {
  state = idle;
  op = free;
  task = absent;
  cancelled = false;
  draining = false;
  services_closed = false;
  errs = [];
  err_closed = false;
  dropped = 0;
  closes = 0;
}

abbrev pub errors_buffer : ℕ
errors_buffer = 32

abbrev pub set_state : Client → State → Client
set_state c s = record c { state = s }

unfoldable pub report : Client → Text → Client
report c e =
    if c.err_closed
    then c
    else if ltb (length c.errs) errors_buffer
    then record c { errs = c.errs ++ (e ∷ []) }
    else record c { dropped = suc c.dropped }

-- `finish`, line by line: other goroutines see the client between its steps.
unfoldable pub release : Client → Client
release c = record c { services_closed = true; op = released }

unfoldable pub announce : Client → Client
announce c = record c { state = stopped; op = announced }

unfoldable pub shut_errors : Client → Client
shut_errors c = record c { err_closed = true; op = shut }

unfoldable pub close_done : Client → Client
close_done c = record c { closes = suc c.closes; op = free }

-- What Start and Stop answer at once.
pub data Verdict : Type 0 where
  goes_on : Verdict
  already_started already_stopped not_started : Verdict
  nothing_to_do : Verdict

abbrev pub start_verdict : State → Verdict
start_verdict idle = goes_on
start_verdict stopping = already_stopped
start_verdict stopped = already_stopped
start_verdict starting = already_started
start_verdict running = already_started
start_verdict degraded = already_started

abbrev pub stop_verdict : State → Verdict
stop_verdict idle = not_started
stop_verdict stopped = nothing_to_do
stop_verdict starting = goes_on
stop_verdict running = goes_on
stop_verdict degraded = goes_on
stop_verdict stopping = goes_on

-- Start up to `c.start`.
unfoldable pub begin_start : Client → Client × Verdict
begin_start c = elim (start_verdict c.state) [
  | goes_on ↦ (record c { state = starting; op = registering }, goes_on)
  | v ↦ (c, v)
]

-- What `c.start` meets: the configuration, the error of `resolveEndpoint`, and the outcome of the
-- registration. An error that is invalid configuration or an unsupported feature is `fatal`.
pub data Registering : Type 0 where
  registered : Registering
  failed fatal : Registering

pub record StartUp : Type 0 where
  pub auto_register : Bool
  pub fail_fast : Bool
  pub resolves : Bool
  pub registering_ends : Registering

-- How `c.start` ends: whether it returns nil, whether the registration failed for now, and whether the
-- runtime tasks were launched.
pub data Launch : Type 0 where
  refused : Launch
  no_tasks : Launch
  launched : Launch
  launched_degraded : Launch

after_registering : Bool → Registering → Launch
after_registering fail_fast registered = launched
after_registering fail_fast fatal = refused
after_registering fail_fast failed = if fail_fast then refused else launched_degraded

unfoldable pub start_up : StartUp → Launch
unfolding after_registering
start_up u =
    if u.auto_register
    then (if u.resolves then after_registering u.fail_fast u.registering_ends else refused)
    else no_tasks

-- `setDegraded` and `setRunning` up to the swap: the state to set, if any.
unfoldable pub degraded_from : State → Option State
degraded_from running = some degraded
degraded_from starting = some degraded
degraded_from idle = none
degraded_from degraded = none
degraded_from stopping = none
degraded_from stopped = none

unfoldable pub running_from : State → Option State
running_from degraded = some running
running_from starting = some running
running_from idle = none
running_from running = none
running_from stopping = none
running_from stopped = none

swapped : Client → Option State → Client
swapped c none = c
swapped c (some s) = set_state c s

-- Start from the end of `c.start` on. A refused start-up leads to `finish`; no task was launched, so
-- the wait for tasks ends at once. `setDegraded` in Start meets no other goroutine.
unfoldable pub after_start : Client → Launch → Client
unfolding swapped degraded_from
after_start c refused = record c { cancelled = true; op = finishing }
after_start c no_tasks = record c { op = started }
after_start c launched = record c { op = started; task = active }
after_start c launched_degraded = record (swapped c (degraded_from c.state)) {
  op = started;
  task = active;
}

-- `if c.State() == StateStarting`.
unfoldable pub look : Client → Client
look c = elim c.state [ starting ↦ record c { op = settling } | s ↦ record c { op = free } ]

unfoldable pub settle : Client → Client
settle c = record c { state = running; op = free }

-- Stop up to its first effect, the state.
unfoldable pub begin_stop : Client → Client × Verdict
begin_stop c = elim (stop_verdict c.state) [
  | goes_on ↦ (record c { state = stopping; op = marking }, goes_on)
  | v ↦ (c, v)
]

unfoldable pub mark_draining : Client → Client
mark_draining c = record c { draining = true; op = cancelling }

unfoldable pub cancel : Client → Client
cancel c = record c { cancelled = true; op = waiting }

-- What the registrar will swap in, if anything.
begin_swap : Client → Option State → Client
begin_swap c none = c
begin_swap c (some s) = record c { task = swapping s }

unfoldable pub set_degraded : Client → Client
unfolding begin_swap degraded_from
set_degraded c = begin_swap c (degraded_from c.state)

unfoldable pub set_running : Client → Client
unfolding begin_swap running_from
set_running c = begin_swap c (running_from c.state)

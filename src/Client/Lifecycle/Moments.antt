-- ===== src/Client/Lifecycle/Moments.antt =====
-- lifecycle.go: what belongs to each moment of Start, Stop and `finish`.
use consulx.Prelude.{Bool, true, false}
use consulx.Client.Lifecycle.{
  State, idle, starting, running, degraded, stopping, stopped, Op, free, registering, started,
  settling, marking, cancelling, waiting, shutting_down, finishing, released, announced, shut, Task,
  absent, active, swapping, returned,
}

abbrev pub is_started : State → Bool
is_started running = true
is_started degraded = true
is_started idle = false
is_started starting = false
is_started stopping = false
is_started stopped = false

abbrev pub is_starting : State → Bool
is_starting starting = true
is_starting s = is_started s

abbrev pub is_stopping : State → Bool
is_stopping stopping = true
is_stopping s = is_started s

abbrev pub is_settled : State → Bool
is_settled idle = true
is_settled stopped = true
is_settled s = is_started s

abbrev pub is_stopped : State → Bool
is_stopped stopped = true
is_stopped idle = false
is_stopped starting = false
is_stopped running = false
is_stopped degraded = false
is_stopped stopping = false

abbrev pub is_ending : State → Bool
is_ending starting = true
is_ending s = is_stopping s

-- The states that a client can have while Start or Stop is that far.
abbrev pub allowed : Op → State → Bool
allowed free s = is_settled s
allowed registering s = is_starting s
allowed started s = is_starting s
allowed settling s = is_starting s
allowed marking s = is_stopping s
allowed cancelling s = is_stopping s
allowed waiting s = is_stopping s
allowed shutting_down s = is_stopping s
allowed finishing s = is_ending s
allowed released s = is_ending s
allowed announced s = is_stopped s
allowed shut s = is_stopped s

-- Where no task may run: before the launch, and from the end of Stop's wait on.
abbrev pub still : Op → State → Bool
still registering s = true
still shutting_down s = true
still finishing s = true
still released s = true
still announced s = true
still shut s = true
still free idle = true
still free stopped = true
still free s = false
still started s = false
still settling s = false
still marking s = false
still cancelling s = false
still waiting s = false

-- A swap that is under way sets one of the two started states.
abbrev pub sound_swap : Task → Bool
sound_swap (swapping s) = is_started s
sound_swap absent = true
sound_swap active = true
sound_swap returned = true

-- `finish` has closed the errors.
abbrev pub errors_shut : Op → State → Bool
errors_shut shut s = true
errors_shut free s = is_stopped s
errors_shut registering s = false
errors_shut started s = false
errors_shut settling s = false
errors_shut marking s = false
errors_shut cancelling s = false
errors_shut waiting s = false
errors_shut shutting_down s = false
errors_shut finishing s = false
errors_shut released s = false
errors_shut announced s = false

-- `finish` has closed `done`.
abbrev pub is_done : Op → State → Bool
is_done free s = is_stopped s
is_done shut s = false
is_done registering s = false
is_done started s = false
is_done settling s = false
is_done marking s = false
is_done cancelling s = false
is_done waiting s = false
is_done shutting_down s = false
is_done finishing s = false
is_done released s = false
is_done announced s = false

-- Stop, or a refused Start, has cancelled the runtime context.
abbrev pub is_cancelling : Op → State → Bool
is_cancelling free s = is_stopped s
is_cancelling registering s = false
is_cancelling started s = false
is_cancelling settling s = false
is_cancelling marking s = false
is_cancelling cancelling s = false
is_cancelling waiting s = true
is_cancelling shutting_down s = true
is_cancelling finishing s = true
is_cancelling released s = true
is_cancelling announced s = true
is_cancelling shut s = true

-- Stop is past `SetDraining`, and not in `finish` yet.
abbrev pub drains : Op → Bool
drains cancelling = true
drains waiting = true
drains shutting_down = true
drains free = false
drains registering = false
drains started = false
drains settling = false
drains marking = false
drains finishing = false
drains released = false
drains announced = false
drains shut = false

-- ===== src/Client/Lifecycle/Safety.antt =====
-- What holds of a client at every moment, whatever Start, Stop and the registrar do.
use consulx.Prelude.{
  ◌≤◌, Bool, true, false, not, ◌||◌, [], ◌∷◌, Text, if◌then◌else◌, length, ◌≡◌, refl, arith,
  length-append,
}
use consulx.Client.Lifecycle.{
  running, degraded, stopped, Op, free, registering, started, settling, marking, cancelling,
  waiting, shutting_down, finishing, released, announced, shut, active, swapping, Client,
  new_lifecycle, errors_buffer, report, release, announce, shut_errors, close_done, begin_start,
  Launch, refused, no_tasks, launched, launched_degraded, already_stopped, nothing_to_do, start_up,
  after_start, look, settle, begin_stop, mark_draining, cancel, set_degraded, set_running,
  degraded_from, running_from,
}
use consulx.Client.Lifecycle.Moments.{
  allowed, still, sound_swap, errors_shut, is_done, is_cancelling, drains,
}
use consulx.Client.Lifecycle.Steps.{
  Step, start_begins, start_goes_on, start_looks, start_settles, stop_begins, stop_marks,
  stop_cancels, stop_waited, stop_finishes, finish_releases, finish_announces, finish_shuts,
  finish_ends, degrades, recovers, swaps, reports, returns, gives_up, reads, Reach, created, next,
  From, here, further, at_rest,
}

pub record Consistent (c : Client) : Type 0 where
  pub state_allowed : allowed c.op c.state ≡ true
  pub resting : (not (still c.op c.state) || at_rest c.task) ≡ true
  pub swap : sound_swap c.task ≡ true
  pub closed_once : c.closes ≡ (if is_done c.op c.state then 1 else 0)
  pub errors_closed : c.err_closed ≡ errors_shut c.op c.state
  pub cancelled : c.cancelled ≡ is_cancelling c.op c.state
  pub drained : (not (drains c.op) || c.draining) ≡ true
  pub buffered : length c.errs ≤ errors_buffer

after_start-Consistent :
    (c : Client) (l : Launch) → c.op ≡ registering → Consistent c → Consistent (after_start c l)
unfolding after_start degraded_from
after_start-Consistent c refused e h = ground (arith, h, e)
after_start-Consistent c no_tasks e h = ground (arith, h, e)
after_start-Consistent c launched e h = ground (arith, h, e)
after_start-Consistent c launched_degraded e h = ground (arith, h, e)

report-Consistent :
    (c : Client) (e : Text) → c.task ≡ active → Consistent c → Consistent (report c e)
unfolding report
report-Consistent c e a h = ground (arith, h, a, length-append c.errs (e ∷ []))

Step-Consistent : {c d : Client} → Step c d → Consistent c → Consistent d
Step-Consistent (start_begins c e) h = unfold begin_start in ground (arith, h, e)
Step-Consistent (start_goes_on c u e) h = after_start-Consistent c (start_up u) e h
Step-Consistent (start_looks c e) h = unfold look in ground (arith, h, e)
Step-Consistent (start_settles c e) h = unfold settle in ground (arith, h, e)
Step-Consistent (stop_begins c e) h = unfold begin_stop in ground (arith, h, e)
Step-Consistent (stop_marks c e) h = unfold mark_draining in ground (arith, h, e)
Step-Consistent (stop_cancels c e) h = unfold cancel in ground (arith, h, e)
Step-Consistent (stop_waited c e r) h = ground (arith, h, e, r)
Step-Consistent (stop_finishes c e) h = ground (arith, h, e)
Step-Consistent (finish_releases c e) h = unfold release in ground (arith, h, e)
Step-Consistent (finish_announces c e) h = unfold announce in ground (arith, h, e)
Step-Consistent (finish_shuts c e) h = unfold shut_errors in ground (arith, h, e)
Step-Consistent (finish_ends c e) h = unfold close_done in ground (arith, h, e)
Step-Consistent (degrades c e) h = unfold set_degraded degraded_from in ground (arith, h, e)
Step-Consistent (recovers c e) h = unfold set_running running_from in ground (arith, h, e)
Step-Consistent (swaps c s e) h = ground (arith, h, e)
Step-Consistent (reports c e a) h = report-Consistent c e a h
Step-Consistent (returns c e o) h = ground (arith, h, e)
Step-Consistent (gives_up c e a) h =
    let k = report-Consistent c e a h in unfold report in ground (arith, h, a, k)
Step-Consistent (reads c e es m) h = ground (arith, h, m)

-- At every moment of a client's life, in any interleaving of Start, Stop, the registrar and a reader
-- of the errors: the state is one of those that belong to how far Start or Stop is; no task runs
-- before Start launched one and after Stop has waited; `done` has been closed once if the state is
-- Stopped and `finish` has returned, and has not been closed otherwise; the channel of errors has been
-- closed exactly since `finish` closed it, which is after the state became Stopped and before `done` was
-- closed; the runtime context is cancelled exactly from the moment on at which Stop, or a Start that is
-- refused, has cancelled it; the instance is marked as draining while Stop cancels, waits for the tasks
-- and shuts down; and at most 32 errors wait.
pub Reach-Consistent : {c : Client} → Reach c → Consistent c
unfolding new_lifecycle
Reach-Consistent created = record {
  state_allowed = refl;
  resting = refl;
  swap = refl;
  closed_once = refl;
  errors_closed = refl;
  cancelled = refl;
  drained = refl;
  buffered = omega arith;
}
Reach-Consistent (next r st) = Step-Consistent st (Reach-Consistent r)

stopped-Step : {c d : Client} → Step c d → c.state ≡ stopped → Consistent c → d.state ≡ stopped
stopped-Step (start_begins c e) s h = unfold begin_start in ground (arith, h, e, s)
stopped-Step (start_goes_on c u e) s h = ground (arith, h, e, s)
stopped-Step (start_looks c e) s h = ground (arith, h, e, s)
stopped-Step (start_settles c e) s h = ground (arith, h, e, s)
stopped-Step (stop_begins c e) s h = unfold begin_stop in ground (arith, h, e, s)
stopped-Step (stop_marks c e) s h = ground (arith, h, e, s)
stopped-Step (stop_cancels c e) s h = ground (arith, h, e, s)
stopped-Step (stop_waited c e r) s h = ground (arith, h, e, s)
stopped-Step (stop_finishes c e) s h = ground (arith, h, e, s)
stopped-Step (finish_releases c e) s h = ground (arith, h, e, s)
stopped-Step (finish_announces c e) s h = ground (arith, h, e, s)
stopped-Step (finish_shuts c e) s h = unfold shut_errors in s
stopped-Step (finish_ends c e) s h = unfold close_done in s
stopped-Step (degrades c e) s h = unfold set_degraded degraded_from in ground (arith, h, e, s)
stopped-Step (recovers c e) s h = unfold set_running running_from in ground (arith, h, e, s)
stopped-Step (swaps c t e) s h = ground (arith, h, e, s)
stopped-Step (reports c e a) s h = unfold report in ground (arith, h, a, s)
stopped-Step (returns c e o) s h = s
stopped-Step (gives_up c e a) s h = unfold report in ground (arith, h, a, s)
stopped-Step (reads c e es m) s h = s

abbrev pub is_free : Op → Bool
is_free free = true
is_free registering = false
is_free started = false
is_free settling = false
is_free marking = false
is_free cancelling = false
is_free waiting = false
is_free shutting_down = false
is_free finishing = false
is_free released = false
is_free announced = false
is_free shut = false

-- Stopped is final: whatever happens to a client that is Stopped, it stays so; `done` has been closed
-- once if no Start or Stop is under way, and not yet otherwise, so it is never closed again; and both
-- Start and Stop answer at once.
pub stopped_final :
    {c d : Client}
    → Reach c
    → c.state ≡ stopped
    → Step c d
    → (d.state ≡ stopped)
      × (d.closes ≡ (if is_free d.op then 1 else 0))
      × (begin_start d ≡ (d, already_stopped))
      × (begin_stop d ≡ (d, nothing_to_do))
unfolding begin_start begin_stop
stopped_final {c} {d} r s st =
    let k = stopped-Step st s (Reach-Consistent r) in
    let h = Step-Consistent st (Reach-Consistent r) in ground (arith, h, k)

-- `setDegraded` can override Stopping: from every client that is Running, with no Start or Stop under
-- way and the registrar at work, steps lead to one where Stop waits for the tasks and the state is
-- Degraded; it is one that a client reaches, if the first is.
pub stopping_overridden :
    (c : Client)
    → Reach c
    → c.state ≡ running
    → c.op ≡ free
    → c.task ≡ active
    → (d : Client) × From c d × Reach d × (d.op ≡ waiting) × (d.state ≡ degraded)
unfolding set_degraded begin_stop mark_draining cancel degraded_from
stopping_overridden c r s o t =
    let loaded = set_degraded c in
    let begun = (begin_stop loaded).0 in
    let stopping_now = cancel (mark_draining begun) in
    let task_now : stopping_now.task ≡ swapping degraded = ground (arith, s, o, t) in
    let loads = degrades c t in
    let stops = stop_begins loaded (ground (arith, s, o)) in
    let marks = stop_marks begun (ground (arith, s, o)) in
    let cancels = stop_cancels (mark_draining begun) refl in
    let swaps_in = swaps stopping_now degraded task_now in
    (
      record stopping_now { state = degraded; task = active },
      further (further (further (further (further here loads) stops) marks) cancels) swaps_in,
      next (next (next (next (next r loads) stops) marks) cancels) swaps_in,
      ground (arith, s, o, t),
      refl,
    )

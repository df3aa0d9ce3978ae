-- ===== src/Client/Lifecycle/Progress.antt =====
-- lifecycle.go: no client is stuck. From wherever a client is, once it was started, Stop comes to its end
-- by itself: the registrar returns because Stop has cancelled its context.
use consulx.Prelude.{true, ◌≡◌, ◌≢◌, refl, arith}
use consulx.Client.Lifecycle.{
  State, idle, starting, running, degraded, stopping, stopped, Op, free, registering, started,
  settling, marking, cancelling, waiting, shutting_down, finishing, released, announced, shut, Task,
  absent, active, swapping, returned, Client, release, announce, shut_errors, close_done, look,
  settle, begin_stop, mark_draining, cancel, StartUp, Launch, refused, no_tasks, launched,
  launched_degraded, after_start, start_up, degraded_from,
}
use consulx.Client.Lifecycle.Steps.{
  Step, Reach, next, From, here, further, at_rest, start_begins, start_goes_on, start_looks,
  start_settles, stop_begins, stop_marks, stop_cancels, stop_waited, stop_finishes, finish_releases,
  finish_announces, finish_shuts, finish_ends, degrades, recovers, swaps, reports, returns,
  gives_up, reads,
}
use consulx.Client.Lifecycle.Moments.{is_started, is_starting, is_stopped, allowed}
use consulx.Client.Lifecycle.Safety.{Consistent, Reach-Consistent}

-- A step that needs no luck: Start, if it is under way, goes on as `u` says, and the registrar neither
-- gives up nor changes its mind; it finishes a swap that it has begun, and returns when it is cancelled.
abbrev pub Unaided : StartUp → {c d : Client} → Step c d → Type 0
Unaided u (start_begins c e) = ⊥
Unaided u (start_goes_on c v e) = v ≡ u
Unaided u (start_looks c e) = Unit
Unaided u (start_settles c e) = Unit
Unaided u (stop_begins c e) = Unit
Unaided u (stop_marks c e) = Unit
Unaided u (stop_cancels c e) = Unit
Unaided u (stop_waited c e r) = Unit
Unaided u (stop_finishes c e) = Unit
Unaided u (finish_releases c e) = Unit
Unaided u (finish_announces c e) = Unit
Unaided u (finish_shuts c e) = Unit
Unaided u (finish_ends c e) = Unit
Unaided u (degrades c e) = ⊥
Unaided u (recovers c e) = ⊥
Unaided u (swaps c s e) = Unit
Unaided u (reports c e a) = ⊥
Unaided u (returns c e o) = Unit
Unaided u (gives_up c e a) = ⊥
Unaided u (reads c e es m) = ⊥

abbrev pub AllUnaided : StartUp → {c d : Client} → From c d → Type 0
AllUnaided u here = Unit
AllUnaided u (further p st) = AllUnaided u p × Unaided u st

-- Unaided steps lead from `c` to a client that is stopped and free.
abbrev Ends : StartUp → Client → Type 0
Ends u c = (d : Client) × (p : From c d) × AllUnaided u p × (d.state ≡ stopped) × (d.op ≡ free)

begun : (d : Client) → is_started d.state ≡ true → (begin_stop d).0.op ≡ marking
unfolding begin_stop
begun d s = at_state d.state refl s
  where
    at_state : (t : State) → d.state ≡ t → is_started t ≡ true → (begin_stop d).0.op ≡ marking
    at_state running e h = rw (e, begin_stop) refl
    at_state degraded e h = rw (e, begin_stop) refl
    at_state idle e h = cc
    at_state starting e h = cc
    at_state stopping e h = cc
    at_state stopped e h = cc

looks : (d : Client) → d.state ≡ starting → (look d).op ≡ settling
unfolding look
looks d e = rw e refl

looks_on :
    (d : Client) (s : State)
    → d.state ≡ s
    → is_started s ≡ true
    → ((look d).op ≡ free) × ((look d).state ≡ s)
unfolding look
looks_on d running e h = rw e (refl, refl)
looks_on d degraded e h = rw e (refl, refl)
looks_on d idle e h = cc
looks_on d starting e h = cc
looks_on d stopping e h = cc
looks_on d stopped e h = cc

degrades_in :
    (d : Client)
    → is_starting d.state ≡ true
    → is_starting (after_start d launched_degraded).state ≡ true
unfolding after_start degraded_from
degrades_in d h = ground (arith, h)

is_stopped_lem : (s : State) → is_stopped s ≡ true → s ≡ stopped
is_stopped_lem stopped h = refl
is_stopped_lem idle h = cc
is_stopped_lem starting h = cc
is_stopped_lem running h = cc
is_stopped_lem degraded h = cc
is_stopped_lem stopping h = cc

-- The unaided ways from `c`.
abbrev To : StartUp → Client → Client → Type 0
To u c d = (p : From c d) × AllUnaided u p

module _ (u : StartUp) {c : Client} where
  at_shut : (d : Client) → To u c d → d.op ≡ shut → d.state ≡ stopped → Ends u c
  unfolding close_done
  at_shut d p o s = (close_done d, further p.0 (finish_ends d o), (p.1, tt), s, refl)

  at_announced : (d : Client) → To u c d → d.op ≡ announced → d.state ≡ stopped → Ends u c
  unfolding shut_errors
  at_announced d p o s = at_shut (shut_errors d) (further p.0 (finish_shuts d o), (p.1, tt)) refl s

  at_released : (d : Client) → To u c d → d.op ≡ released → Ends u c
  unfolding announce
  at_released d p o =
      at_announced (announce d) (further p.0 (finish_announces d o), (p.1, tt)) refl refl

  at_finishing : (d : Client) → To u c d → d.op ≡ finishing → Ends u c
  unfolding release
  at_finishing d p o = at_released (release d) (further p.0 (finish_releases d o), (p.1, tt)) refl

  at_shutting : (d : Client) → To u c d → d.op ≡ shutting_down → Ends u c
  at_shutting d p o =
      at_finishing (record d { op = finishing }) (further p.0 (stop_finishes d o), (p.1, tt)) refl

  rested : (d : Client) → To u c d → d.op ≡ waiting → at_rest d.task ≡ true → Ends u c
  rested d p o r =
      at_shutting (record d { op = shutting_down }) (further p.0 (stop_waited d o r), (p.1, tt))
        refl

  at_waiting :
      (d : Client) (t : Task)
      → d.task ≡ t
      → To u c d
      → d.op ≡ waiting
      → d.cancelled ≡ true
      → Ends u c
  at_waiting d absent e p o k = rested d p o (rw e refl)
  at_waiting d returned e p o k = rested d p o (rw e refl)
  at_waiting d active e p o k =
      rested (record d { task = returned }) (further p.0 (returns d e k), (p.1, tt)) o refl
  at_waiting d (swapping s) e p o k =
      let swapped : Client = record d { state = s; task = active } in
      rested (record swapped { task = returned })
        (further (further p.0 (swaps d s e)) (returns swapped refl k), ((p.1, tt), tt)) o refl

  at_cancelling : (d : Client) → To u c d → d.op ≡ cancelling → Ends u c
  unfolding cancel
  at_cancelling d p o =
      at_waiting (cancel d) d.task refl (further p.0 (stop_cancels d o), (p.1, tt)) refl refl

  at_marking : (d : Client) → To u c d → d.op ≡ marking → Ends u c
  unfolding mark_draining
  at_marking d p o = at_cancelling (mark_draining d) (further p.0 (stop_marks d o), (p.1, tt)) refl

  at_free : (d : Client) → To u c d → d.op ≡ free → is_started d.state ≡ true → Ends u c
  at_free d p o s =
      at_marking (begin_stop d).0 (further p.0 (stop_begins d o), (p.1, tt)) (begun d s)

  at_settling : (d : Client) → To u c d → d.op ≡ settling → Ends u c
  unfolding settle
  at_settling d p o = at_free (settle d) (further p.0 (start_settles d o), (p.1, tt)) refl refl

  at_started :
      (d : Client) (s : State)
      → d.state ≡ s
      → To u c d
      → d.op ≡ started
      → is_starting s ≡ true
      → Ends u c
  at_started d starting e p o h =
      at_settling (look d) (further p.0 (start_looks d o), (p.1, tt)) (looks d e)
  at_started d running e p o h =
      let k = looks_on d running e refl in
      at_free (look d) (further p.0 (start_looks d o), (p.1, tt)) k.0 (rw k.1 refl)
  at_started d degraded e p o h =
      let k = looks_on d degraded e refl in
      at_free (look d) (further p.0 (start_looks d o), (p.1, tt)) k.0 (rw k.1 refl)
  at_started d idle e p o h = cc
  at_started d stopping e p o h = cc
  at_started d stopped e p o h = cc

  -- Start goes on, or ends the client.
  at_launch :
      (d : Client) (l : Launch) → To u c (after_start d l) → is_starting d.state ≡ true → Ends u c
  unfolding after_start
  at_launch d refused p h = at_finishing (after_start d refused) p refl
  at_launch d no_tasks p h = at_started (after_start d no_tasks) d.state refl p refl h
  at_launch d launched p h = at_started (after_start d launched) d.state refl p refl h
  at_launch d launched_degraded p h =
      at_started (after_start d launched_degraded) (after_start d launched_degraded).state refl p
        refl (degrades_in d h)

  at_registering :
      (d : Client) → To u c d → d.op ≡ registering → is_starting d.state ≡ true → Ends u c
  at_registering d p o h =
      at_launch d (start_up u) (further p.0 (start_goes_on d u o), (p.1, refl)) h

  ends : Consistent c → c.state ≢ idle → Ends u c
  ends h k = at_op c.op refl
    where
      start : To u c c
      start = (here, tt)

      at_state : (s : State) → c.op ≡ free → c.state ≡ s → allowed free s ≡ true → Ends u c
      at_state stopped o e a = (c, here, tt, e, o)
      at_state idle o e a = absurd (k e)
      at_state running o e a = at_free c start o (rw e refl)
      at_state degraded o e a = at_free c start o (rw e refl)
      at_state starting o e a = cc
      at_state stopping o e a = cc

      at_op : (o : Op) → c.op ≡ o → Ends u c
      at_op free e = at_state c.state e refl (rw e at h.state_allowed)
      at_op registering e = at_registering c start e (rw e at h.state_allowed)
      at_op started e = at_started c c.state refl start e (rw e at h.state_allowed)
      at_op settling e = at_settling c start e
      at_op marking e = at_marking c start e
      at_op cancelling e = at_cancelling c start e
      at_op waiting e = at_waiting c c.task refl start e (ground (arith, h.cancelled, e))
      at_op shutting_down e = at_shutting c start e
      at_op finishing e = at_finishing c start e
      at_op released e = at_released c start e
      at_op announced e = at_announced c start e (is_stopped_lem c.state (rw e at h.state_allowed))
      at_op shut e = at_shut c start e (is_stopped_lem c.state (rw e at h.state_allowed))

From-Reach : {c d : Client} → Reach c → From c d → Reach d
From-Reach r here = r
From-Reach r (further p st) = next (From-Reach r p) st

-- No client that was started is stuck: wherever Start, Stop and the registrar are, there are steps that
-- lead to the client Stopped, Stop returned, `done` closed once and the errors closed. Of the steps, none
-- is luck: a Start that is under way goes on as it is told to, nobody starts the client again, and the
-- registrar does not give up; it only ends a swap that it has begun, and returns once it is cancelled.
pub Reach-can_stop :
    (u : StartUp) {c : Client}
    → Reach c
    → c.state ≢ idle
    → (d : Client) × (p : From c d) × AllUnaided u p
      × (d.state ≡ stopped)
      × (d.op ≡ free)
      × (d.closes ≡ 1)
      × (d.err_closed ≡ true)
Reach-can_stop u {c} r k =
    let (d, path, a, s, o) = ends u (Reach-Consistent r) k in
    let h = Reach-Consistent (From-Reach r path) in
    (d, path, a, s, o, ground (arith, h.closed_once, s, o), ground (arith, h.errors_closed, s, o))

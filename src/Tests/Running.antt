-- ===== src/Tests/Running.antt =====
-- Health, the lifecycle, retries, pacing, IDs and versions on concrete inputs.
use mathlib.Core.List.Permᴰ
use consulx.Prelude.{if◌then◌else◌}
use consulx.Prelude.{
  ℕ, ◌+◌, ◌*◌, ◌≤◌, ◌↔◌, true, false, List, [], ◌∷◌, some, Text, codes, length, ◌≡◌, refl, arith,
  text_eq,
}
use consulx.Blocking.{Rounding, new_limiter}
use consulx.Blocking.Pace.{rounding_of, reserve_all, last_release, reserve_all_pace}
use consulx.Backoff.{Policy, next_delay, World, failed, Run, retry}
use consulx.Backoff.Endings.{Because, retry-ends}
use consulx.Health.{
  Status, up, degraded, severity, CheckResult, readiness_scope, liveness_scope, both,
}
use consulx.Health.Registry.{Registry, Component, ready, live, health, no_result}
use consulx.Health.Probe.{worst, expected, probes-worst}
use consulx.Health.Execution.{no_calls, begin, IsRunning, answer, Reach-single}
use consulx.Health.Execution
use consulx.Compat.{Version, parse, is_enterprise}
use consulx.Compat.RoundTrip.{written, parse-written}
use consulx.Client.Lifecycle.{
  Client, new_lifecycle, stopped, running, free, waiting, active, begin_start, begin_stop,
  after_start, start_up, look, settle, release, announce, shut_errors, close_done, finishing,
  mark_draining, cancel, shutting_down, already_stopped, nothing_to_do, registered,
}
use consulx.Client.Failures.{ttl_status}
use consulx.Health.Handler.{HandlerOptions, get}
use consulx.Client.Lifecycle.Progress.{AllUnaided, Reach-can_stop}
use consulx.Client.Serving.{Endpoints, serve}
use consulx.Client.Serving.Routes.{served_endpoints, asked, answered, serve-asked}
use consulx.Config.{HealthEndpoints}
use consulx.Config.Validate.Checks.{IsEndpoints}
use consulx.Client.Serving.Agreement.{checked_status, serve-ttl_status}
use consulx.Client.Lifecycle
use consulx.Client.Lifecycle.Steps
use consulx.Client.Lifecycle.Steps.{at_rest}
use consulx.Client.Lifecycle.Safety.{
  Consistent, Reach-Consistent, stopped_final, stopping_overridden, is_free,
}

abbrev result_of : Status → CheckResult
result_of s = record { status = s; details = []; error = [] }

abbrev checked0 : Text → CheckResult
checked0 name = result_of degraded

abbrev db : Text × Component
db = (codes "db", record { scope = readiness_scope; has_checker = true; pushed = no_result })

abbrev cache : Text × Component
cache = (
  codes "cache",
  record {
    scope = both readiness_scope liveness_scope;
    has_checker = false;
    pushed = result_of up;
  },
)

abbrev registry0 : Registry
registry0 = record {
  timeout = 5;
  components = db ∷ cache ∷ [];
  draining = false;
  listeners = 1 ∷ [];
}

probes-worst_example :
    (severity (ready registry0 checked0).status
      ≡ expected false (worst checked0 readiness_scope (cache ∷ db ∷ [])))
    × (severity (live registry0 checked0).status ≡ worst checked0 liveness_scope (cache ∷ db ∷ []))
    × (severity (health registry0 checked0).status
        ≡ expected false (worst checked0 (both readiness_scope liveness_scope) (cache ∷ db ∷ [])))
probes-worst_example = probes-worst registry0 checked0 (Permᴰ.swap refl refl)

Reach-single_example :
    (IsRunning (begin no_calls).0 0 ↔ ((begin no_calls).0.inflight ≡ some 0))
    × (begin (begin (begin no_calls).0).0 ≡ begin (begin no_calls).0)
Reach-single_example =
    Reach-single 0 (Execution.Reach.next Execution.Reach.initial (Execution.Step.probe no_calls))

abbrev policy0 : Policy
policy0 = record { max_attempts = 3; delay = λ n. 100 * n }

abbrev world0 : World Text
world0 = record {
  outcome = λ n. failed (codes "refused");
  ctx_over = λ n. false;
  since_start = λ n. 1000 * n;
  interrupted = λ n. false;
}

retry-ends_example :
    (r : Run Text) × (retry (next_delay policy0) 0 world0 3 ≡ some r)
    × (1 ≤ r.attempts)
    × (r.attempts ≤ 3)
    × Because (next_delay policy0) 0 world0 r.attempts r.ending
retry-ends_example = retry-ends policy0 0 world0 (omega arith)

abbrev cut_short : Rounding
cut_short = record { gained = 0; missed = 1; sooner = 2; later = 0 }

abbrev clock : List (ℕ × Rounding)
clock = (7, cut_short) ∷ (8, cut_short) ∷ (9, cut_short) ∷ []

reserve_all_pace_example :
    7 + length clock * 10
    ≤ last_release (reserve_all (reserve_all (new_limiter 10 2) ((1, cut_short) ∷ [])) clock)
      + 2 * 10
      + rounding_of clock
reserve_all_pace_example =
    reserve_all_pace 10 2 ((1, cut_short) ∷ []) 7 cut_short ((8, cut_short) ∷ (9, cut_short) ∷ [])
      (omega arith)

parse-written_example :
    parse (written 1 21 0 (codes "rc1") (codes "ent.fips"))
    ≡ some (record {
      major = 1;
      minor = 21;
      patch = 0;
      pre = codes "rc1";
      enterprise = is_enterprise (codes "ent.fips");
      raw = written 1 21 0 (codes "rc1") (codes "ent.fips");
    })
parse-written_example =
    parse-written 1 21 0 (codes "rc1") (codes "ent.fips") (omega arith) (omega arith) (omega arith)
      (refl, (refl, (refl, tt))) (refl, (refl, (refl, (refl, (refl, (refl, (refl, (refl, tt))))))))
      (refl, (refl, (refl, tt)))

abbrev version_of : ℕ → ℕ → Version
version_of major minor = record {
  major = major;
  minor = minor;
  patch = 0;
  pre = [];
  enterprise = false;
  raw = codes "given";
}

abbrev start_up0 : Lifecycle.StartUp
start_up0 = record {
  auto_register = true;
  fail_fast = false;
  resolves = true;
  registering_ends = registered;
}

abbrev registering0 : Client
registering0 = (begin_start new_lifecycle).0

abbrev started0 : Client
started0 = after_start registering0 (start_up start_up0)

abbrev running0 : Client
running0 = settle (look started0)

-- Stop up to the end of its wait; the registrar has returned.
abbrev waited0 : Client
waited0 = record (cancel (mark_draining (begin_stop running0).0)) { task = Lifecycle.Task.returned }

abbrev shut0 : Client
shut0 = shut_errors (announce (release (record waited0 { op = finishing })))

abbrev stopped0 : Client
stopped0 = close_done shut0

abbrev R : Client → Type 0
R c = Steps.Reach c

running0-Reach : R running0
unfolding new_lifecycle begin_start start_up after_start look settle
running0-Reach =
    let r1 : R registering0 =
      Steps.Reach.next Steps.Reach.created (Steps.Step.start_begins new_lifecycle refl) in
    let r2 : R started0 =
      Steps.Reach.next r1 (Steps.Step.start_goes_on registering0 start_up0 refl) in
    let r3 : R (look started0) = Steps.Reach.next r2 (Steps.Step.start_looks started0 refl) in
    Steps.Reach.next r3 (Steps.Step.start_settles (look started0) refl)

stopped0-Reach : R stopped0
unfolding new_lifecycle begin_start begin_stop mark_draining cancel start_up after_start look settle
    release announce shut_errors close_done
stopped0-Reach =
    let b : Client = (begin_stop running0).0 in
    let k : Client = cancel (mark_draining b) in
    let f : Client = record waited0 { op = finishing } in
    let r1 : R b = Steps.Reach.next running0-Reach (Steps.Step.stop_begins running0 refl) in
    let r2 : R (mark_draining b) = Steps.Reach.next r1 (Steps.Step.stop_marks b refl) in
    let r3 : R k = Steps.Reach.next r2 (Steps.Step.stop_cancels (mark_draining b) refl) in
    let r4 : R waited0 = Steps.Reach.next r3 (Steps.Step.returns k refl refl) in
    let r5 : R (record waited0 { op = shutting_down }) =
      Steps.Reach.next r4 (Steps.Step.stop_waited waited0 refl refl) in
    let r6 : R f =
      Steps.Reach.next r5 (Steps.Step.stop_finishes (record waited0 { op = shutting_down }) refl) in
    let r7 : R (release f) = Steps.Reach.next r6 (Steps.Step.finish_releases f refl) in
    let r8 : R (announce (release f)) =
      Steps.Reach.next r7 (Steps.Step.finish_announces (release f) refl) in
    let r9 : R shut0 = Steps.Reach.next r8 (Steps.Step.finish_shuts (announce (release f)) refl) in
    Steps.Reach.next r9 (Steps.Step.finish_ends shut0 refl)

Reach-Consistent_example : Consistent stopped0
Reach-Consistent_example = Reach-Consistent stopped0-Reach

stopped_final_example :
    ((begin_start stopped0).0.state ≡ stopped)
    × ((begin_start stopped0).0.closes ≡ (if is_free (begin_start stopped0).0.op then 1 else 0))
    × (begin_start (begin_start stopped0).0 ≡ ((begin_start stopped0).0, already_stopped))
    × (begin_stop (begin_start stopped0).0 ≡ ((begin_start stopped0).0, nothing_to_do))
unfolding announce shut_errors close_done begin_start
stopped_final_example = stopped_final stopped0-Reach refl (Steps.Step.start_begins stopped0 refl)

stopping_overridden_example :
    (d : Client) × Steps.From running0 d
    × R d
    × (d.op ≡ waiting)
    × (d.state ≡ Lifecycle.State.degraded)
unfolding new_lifecycle begin_start start_up after_start look settle
stopping_overridden_example = stopping_overridden running0 running0-Reach refl refl refl

abbrev endpoints0 : Endpoints
endpoints0 = record { health = codes "/health"; live = []; ready = codes "/health/ready" }

abbrev options0 : HandlerOptions
options0 = record { hide_details = true; degraded_status_code = 0 }

serve-ttl_status_example :
    checked_status (serve endpoints0 options0 registry0 checked0 (codes "/health/ready") get)
    ≡ some (ttl_status (ready registry0 checked0).status)
serve-ttl_status_example = serve-ttl_status endpoints0 options0 registry0 checked0 refl refl

abbrev paths0 : HealthEndpoints
paths0 = record { health = codes "/health"; live = codes "/live"; ready = codes "/health/ready" }

paths0-IsEndpoints : IsEndpoints paths0
unfolding text_eq
paths0-IsEndpoints = record {
  health = refl;
  live = refl;
  ready = refl;
  health_live = refl;
  health_ready = refl;
  live_ready = refl;
}

serve-asked_example :
    serve (served_endpoints paths0) options0 registry0 checked0 (codes "/live") get
    ≡ answered options0 registry0 checked0 get (asked paths0 (codes "/live"))
serve-asked_example =
    serve-asked paths0 options0 registry0 checked0 (codes "/live") get paths0-IsEndpoints

Reach-can_stop_example :
    (d : Client) × (p : Steps.From running0 d) × AllUnaided start_up0 p
    × (d.state ≡ stopped)
    × (d.op ≡ free)
    × (d.closes ≡ 1)
    × (d.err_closed ≡ true)
unfolding settle
Reach-can_stop_example = Reach-can_stop start_up0 running0-Reach (λ e. cc)

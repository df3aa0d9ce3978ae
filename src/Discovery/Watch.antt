-- ===== src/Discovery/Watch.antt =====
-- discovery/watch.go, Watch: the loop of the watch goroutine, one response at a time, and the channels
-- that it shares with its consumer. A channel of capacity one is an `Option`.
pub mod Coalesce
use consulx.Prelude.{
  ℕ, suc, ◌/◌, Bool, true, false, ◌&&◌, List, [], Option, some, none, Text, if◌then◌else◌,
}
use consulx.Blocking.{next_index}
use consulx.Discovery.Instance.{ServiceInstance}
use consulx.Discovery.Equal.{equal_instance, slices_equal}
use consulx.Discovery.Diff.{Event, diff}
use consulx.Discovery.Snapshot.{Snapshot, new_snapshot}

-- `retry` is the `NextDelay` of the client's retry policy, which the application may supply.
pub record Config : Type 0 where
  pub wait_time : ℕ
  pub retry : ℕ → Option ℕ

-- The local variables of `run`, and the shared fields. `published` counts the snapshots made, so each
-- has its own tag.
pub record Watch : Type 0 where
  pub index : ℕ
  pub failures : ℕ
  pub delivered : List ServiceInstance
  pub last_sent : List ServiceInstance
  pub have_state : Bool
  pub current : Snapshot
  pub published : ℕ
  pub ready : Bool
  pub events : Option Event
  pub errs : Option Text

unfoldable pub start : Watch
start = record {
  index = 0;
  failures = 0;
  delivered = [];
  last_sent = [];
  have_state = false;
  current = none;
  published = 0;
  ready = false;
  events = none;
  errs = none;
}

-- The answer to one blocking query, after `fetch`.
pub data Response : Type 0 where
  failed : Text → Response
  answered : List ServiceInstance → ℕ → Response

-- The `if err != nil` branch: the state, and the delay before the next request.
on_error : Config → Watch → Text → Watch × ℕ
on_error c w e =
    let failures = suc w.failures in
    (
      record w { failures = failures; errs = some e; index = 0 },
      elim (c.retry failures) [ none ↦ c.wait_time / 10 | some d ↦ d ],
    )

-- The `select` that takes an unread event back: what the consumer saw.
seen : Option Event → List ServiceInstance → List ServiceInstance → List ServiceInstance
seen (some e) delivered last_sent = delivered
seen none delivered last_sent = last_sent

publish : Watch → List ServiceInstance → Watch
unfolding seen
publish w instances =
    let delivered = seen w.events w.delivered w.last_sent in
    record w {
      have_state = true;
      current = some (new_snapshot w.published instances);
      published = suc w.published;
      ready = true;
      delivered = delivered;
      events = some (diff delivered instances);
      last_sent = instances;
    }

unfoldable pub handle : Config → Watch → Response → Watch × ℕ
unfolding on_error publish
handle c w (failed e) = on_error c w e
handle c w (answered instances got) =
    let w' = record w { failures = 0; index = next_index w.index got } in
    if w.have_state && slices_equal equal_instance instances w.last_sent
    then (w', 0)
    else (publish w' instances, 0)

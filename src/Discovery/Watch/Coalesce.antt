-- ===== src/Discovery/Watch/Coalesce.antt =====
-- Coalescing: whatever the consumer reads and skips, the event that it gets next leads from what it
-- last saw to the newest state.
use consulx.Prelude.{ℕ, true, List, [], Option, some, none, ◌≡◌, refl, Text, arith}
use consulx.Discovery.Instance.{ServiceInstance}
use consulx.Discovery.Equal.{equal_instance, slices_equal}
use consulx.Discovery.Diff.{Event, diff}
use consulx.Discovery.Snapshot.{instances, new_snapshot}
use consulx.Discovery.Watch.{Config, Watch, Response, start, handle}

-- The watch and what its consumer saw last.
pub record System : Type 0 where
  pub watch : Watch
  pub view : List ServiceInstance

-- The goroutine handles a response, or the consumer reads a channel: in any order.
pub data Step (c : Config) : System → System → Type 0 where
  respond : (s : System) (r : Response) → Step c s (record s { watch = (handle c s.watch r).0 })
  read_event :
      (s : System) (e : Event)
      → s.watch.events ≡ some e
      → Step c s (record { watch = record (s.watch) { events = none }; view = e.instances })
  read_error : (s : System) → Step c s (record s { watch = record (s.watch) { errs = none } })

pub data Reach (c : Config) : System → Type 0 where
  begin : Reach c (record { watch = start; view = [] })
  next : {s t : System} → Reach c s → Step c s t → Reach c t

-- The pending event leads from the consumer's view to the last state sent.
abbrev pub Pending :
    Option Event → List ServiceInstance → List ServiceInstance → List ServiceInstance → Type 0
Pending none delivered last_sent view = view ≡ last_sent
Pending (some e) delivered last_sent view = (e ≡ diff view last_sent) × (view ≡ delivered)

pub record Coalesced (s : System) : Type 0 where
  pub pending : Pending s.watch.events s.watch.delivered s.watch.last_sent s.view
  pub shown : instances s.watch.current ≡ s.watch.last_sent

handle-Coalesced :
    (c : Config) (s : System) (r : Response)
    → Coalesced s
    → Coalesced (record s { watch = (handle c s.watch r).0 })
unfolding handle diff new_snapshot
handle-Coalesced c s (Response.failed e) h = ground arith
handle-Coalesced c s (Response.answered is got) h = ground arith

read-Coalesced :
    (s : System) (e : Event)
    → s.watch.events ≡ some e
    → Coalesced s
    → Coalesced (record { watch = record (s.watch) { events = none }; view = e.instances })
unfolding diff
read-Coalesced s e m h = ground arith

Step-Coalesced : {c : Config} {s t : System} → Step c s t → Coalesced s → Coalesced t
Step-Coalesced {c} (respond s r) h = handle-Coalesced c s r h
Step-Coalesced (read_event s e m) h = read-Coalesced s e m h
Step-Coalesced (read_error s) h = record { pending = h.pending; shown = h.shown }

Reach-Coalesced : {c : Config} {s : System} → Reach c s → Coalesced s
unfolding start
Reach-Coalesced begin = record { pending = refl; shown = refl }
Reach-Coalesced (next r st) = Step-Coalesced st (Reach-Coalesced r)

-- With no event to read, the consumer has seen the current instances; an unread event is the
-- difference between what the consumer saw last and the current instances.
abbrev pub Leads : Option Event → List ServiceInstance → List ServiceInstance → Type 0
Leads none view current = view ≡ current
Leads (some e) view current = e ≡ diff view current

Leads-of :
    (o : Option Event) (delivered last_sent view current : List ServiceInstance)
    → Pending o delivered last_sent view
    → current ≡ last_sent
    → Leads o view current
Leads-of none delivered last_sent view current h e = ground (arith, h, e)
Leads-of (some x) delivered last_sent view current h e = ground (arith, h, e)

-- In every state that responses and reads lead to, in any order: a consumer with no event to read has
-- seen the current instances, and an unread event is the difference between what the consumer saw
-- last and the current instances, however many states it skipped.
pub Reach-diff :
    {c : Config} {s : System} → Reach c s → Leads s.watch.events s.view (instances s.watch.current)
Reach-diff {s = s} r =
    let h = Reach-Coalesced r in
    Leads-of s.watch.events s.watch.delivered s.watch.last_sent s.view (instances s.watch.current)
      h.pending h.shown

-- What a consumer can see of a watch is the same.
abbrev pub Quiet : Watch → Watch → Type 0
Quiet w w' = (w'.events ≡ w.events) × (w'.current ≡ w.current) × (w'.ready ≡ w.ready)

-- A failed request, and a response with instances equal to those sent last, publish no state and no
-- event. The failure makes the next request start from index 0, and only the newest unread error is
-- kept; the response ends the count of failures.
pub handle-Quiet :
    (c : Config) (w : Watch) (e : Text) (is : List ServiceInstance) (got : ℕ)
    → w.have_state ≡ true
    → slices_equal equal_instance is w.last_sent ≡ true
    → Quiet w (handle c w (Response.failed e)).0
      × Quiet w (handle c w (Response.answered is got)).0
      × ((handle c w (Response.failed e)).0.index ≡ 0)
      × ((handle c w (Response.failed e)).0.errs ≡ some e)
      × ((handle c w (Response.answered is got)).0.failures ≡ 0)
unfolding handle
handle-Quiet c w e is got h k = ground arith

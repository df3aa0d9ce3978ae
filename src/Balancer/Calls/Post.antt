-- ===== src/Balancer/Calls/Post.antt =====
-- What every call keeps: built-in pickers, and states whose endpoints are those of their instances.
use mathlib.Core.Path.{subst, sym}
use consulx.Prelude.{
  ℕ, ◌+◌, ◌||◌, none, some, Text, ◌≡◌, if◌then◌else◌, ◌==◌, map, inl, inr, Bool-cases, if_both,
  Option-cases, ltb,
}
use consulx.Prelude.Dict.{lookup, lookup-insert_cases}
use consulx.Discovery.Instance.{endpoint}
use consulx.Discovery.Snapshot.{Snapshot, len, same}
use consulx.Balancer.{Entry, Balancer, ctx_err}
use consulx.Balancer.Pick.Range.{IsIndexPicker}
use consulx.Balancer.Grace.{bridge, with_grace}
use consulx.Balancer.Calls.{
  Env, Result, ok, err, is_closed, Current, store, new_entry, entry_locked, entry, Arrival,
  is_ready, ctx_over, watch_over, on_ready, await, give_up, try_again, current,
}

-- The endpoints of a state are those of its instances.
abbrev pub IsAligned : Snapshot → Type 0
IsAligned none = Unit
IsAligned (some s) = s.endpoints ≡ map endpoint s.list

pub record EntryOk (e : Entry) : Type 0 where
  pub index_picker : IsIndexPicker e.picker
  pub aligned : IsAligned e.last

-- The strategy is a built-in one, and so is the picker of each service.
pub record IsBuiltIn (b : Balancer) : Type 0 where
  pub strategy : IsIndexPicker b.strategy
  pub entries : (service : Text) (e : Entry) → lookup service b.services ≡ some e → EntryOk e

store-IsBuiltIn :
    (b : Balancer) (service : Text) (e : Entry)
    → IsBuiltIn b
    → EntryOk e
    → IsBuiltIn (store b service e)
store-IsBuiltIn b service e h k = record {
  strategy = h.strategy;
  entries = λ other x found. elim (lookup-insert_cases service other e b.services found) [
    | inl same ↦ subst EntryOk (sym same) k
    | inr old ↦ h.entries other x old
  ];
}

-- The entry that a call works on, or its error.
abbrev EntryPost : Balancer × Result Entry → Type 0
EntryPost (b, ok e) = IsBuiltIn b × EntryOk e
EntryPost (b, err x) = IsBuiltIn b

used-EntryPost :
    (env : Env) (b : Balancer) (service : Text) (e : Entry)
    → IsBuiltIn b
    → EntryOk e
    → EntryPost
        (store b service (record e { last_used = env.now }), ok (record e { last_used = env.now }))
used-EntryPost env b service e h k =
    let k' : EntryOk (record e { last_used = env.now }) = record {
      index_picker = k.index_picker;
      aligned = k.aligned;
    } in
    (store-IsBuiltIn b service (record e { last_used = env.now }) h k', k')

created-EntryPost :
    (env : Env) (b : Balancer) (service : Text)
    → IsBuiltIn b
    → EntryPost (
      record (store b service (new_entry b env.now)) { janitor = b.janitor || ltb 0 b.idle },
      ok (new_entry b env.now),
    )
unfolding new_entry
created-EntryPost env b service h =
    let k : EntryOk (new_entry b env.now) = record { index_picker = h.strategy; aligned = tt } in
    let stored = store-IsBuiltIn b service (new_entry b env.now) h k in
    (record { strategy = stored.strategy; entries = stored.entries }, k)

entry_locked-EntryPost :
    (env : Env) (b : Balancer) (service : Text)
    → IsBuiltIn b
    → EntryPost (entry_locked env b service)
unfolding entry_locked
entry_locked-EntryPost env b service h = elim (Bool-cases (is_closed b)) [
  | inl c ↦ rw (c, entry_locked) h
  | inr o ↦ elim (Option-cases (lookup service b.services)) [
    | inr (e, f) ↦
        rw (o, f, entry_locked) (used-EntryPost env b service e h (h.entries service e f))
    | inl f ↦ elim (Option-cases (env.watch_error service)) [
      | inl g ↦ rw (o, f, g, entry_locked) (created-EntryPost env b service h)
      | inr (cause, g) ↦ rw (o, f, g, entry_locked) h
    ]
  ]
]

entry-EntryPost :
    (env : Env) (b : Balancer) (service : Text) → IsBuiltIn b → EntryPost (entry env b service)
unfolding entry
entry-EntryPost env b service h = elim (Bool-cases (is_closed b)) [
  | inl c ↦ rw (c, entry) h
  | inr o ↦ elim (Option-cases (lookup service b.services)) [
    | inr (e, f) ↦ rw (o, f, entry) (used-EntryPost env b service e h (h.entries service e f))
    | inl f ↦ rw (o, f, entry) (entry_locked-EntryPost env b service h)
  ]
]

-- The snapshot that a call picks from, or its error.
abbrev pub CurrentPost : Current → Type 0
CurrentPost (b, ok (e, s)) = IsBuiltIn b × EntryOk e × IsAligned s
CurrentPost (b, err x) = IsBuiltIn b

bridge-IsAligned :
    (e : Entry) (s : Snapshot) (grace now : ℕ)
    → IsAligned e.last
    → IsAligned s
    → IsAligned (bridge e s grace now)
unfolding bridge
bridge-IsAligned e s grace now l a = at_last e.last l
  where
    at_last :
        (last : Snapshot)
        → IsAligned last
        → IsAligned
            (elim last [ none ↦ s | some x ↦ if ltb (e.last_seen + grace) now then s else some x ])
    at_last none l = a
    at_last (some x) l = if_both IsAligned (ltb (e.last_seen + grace) now) a l

abbrev GracePost : Entry × Snapshot → Type 0
GracePost (e, s) = EntryOk e × IsAligned s

with_grace-Post :
    (e : Entry) (s : Snapshot) (grace now : ℕ)
    → EntryOk e
    → IsAligned s
    → GracePost (with_grace e s grace now)
unfolding with_grace
with_grace-Post e s grace now h a =
    let kept : EntryOk (record e { last_seen = now }) = record {
      index_picker = h.index_picker;
      aligned = h.aligned;
    } in
    let stored : EntryOk (record e { last_seen = now; last = s }) = record {
      index_picker = h.index_picker;
      aligned = a;
    } in
    if_both GracePost (grace == 0) (h, a)
      (if_both GracePost (len s == 0) (h, bridge-IsAligned e s grace now h.aligned a)
        (if_both EntryOk (same e.last s) kept stored, a))

on_ready-Post :
    (env : Env) (b : Balancer) (service : Text) (e : Entry)
    → IsAligned env.snapshot
    → IsBuiltIn b
    → EntryOk e
    → CurrentPost (on_ready env b service e)
unfolding on_ready
on_ready-Post env b service e a h k =
    let (k', a') = with_grace-Post e env.snapshot b.grace env.now k a in
    (store-IsBuiltIn b service (with_grace e env.snapshot b.grace env.now).0 h k', k', a')

await-Post :
    (env : Env) (service : Text) (attempt : ℕ) (over : Balancer → Current)
    (r : Balancer × Result Entry)
    → IsAligned env.snapshot
    → ((b : Balancer) → IsBuiltIn b → CurrentPost (over b))
    → EntryPost r
    → CurrentPost (await env service attempt over r)
unfolding await
await-Post env service attempt over (b, err x) a keep h = h
await-Post env service attempt over (b, ok e) a keep h = at_arrival (env.arrival attempt)
  where
    at_arrival :
        (arrived : Arrival)
        → CurrentPost (elim arrived [
          | is_ready ↦ on_ready env b service e
          | ctx_over ↦ (b, err ctx_err)
          | watch_over ↦ over b
        ])
    at_arrival is_ready = on_ready-Post env b service e a h.0 h.1
    at_arrival ctx_over = h.0
    at_arrival watch_over = keep b h.0

-- What other goroutines do to a balancer leaves its pickers built in.
abbrev pub Meanwhile : Env → Type 0
Meanwhile env = (b : Balancer) → IsBuiltIn b → IsBuiltIn (env.meanwhile b)

try_again-Post :
    (env : Env) (service : Text) (b : Balancer)
    → IsAligned env.snapshot
    → Meanwhile env
    → IsBuiltIn b
    → CurrentPost (try_again env service b)
unfolding try_again
try_again-Post env service b a keep h =
    let h' = keep b h in
    if_both CurrentPost (is_closed (env.meanwhile b)) h' (
      await-Post env service 1 give_up (entry env (env.meanwhile b) service) a
        (λ x k. unfold give_up in k) (entry-EntryPost env (env.meanwhile b) service h'))

pub current-Post :
    (env : Env) (b : Balancer) (service : Text)
    → IsAligned env.snapshot
    → Meanwhile env
    → IsBuiltIn b
    → CurrentPost (current env b service)
unfolding current
current-Post env b service a keep h =
    await-Post env service 0 (try_again env service) (entry env b service) a
      (λ x k. try_again-Post env service x a keep k) (entry-EntryPost env b service h)

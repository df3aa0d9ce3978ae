-- ===== src/Balancer/Grace.antt =====
-- balancer/balancer.go, withGrace: an empty list is bridged by the last list that was not empty.
pub mod History
use consulx.Prelude.{ℕ, ◌+◌, ◌==◌, ltb, none, some, if◌then◌else◌}
use consulx.Discovery.Snapshot.{Snapshot, len, same}
use consulx.Balancer.{Entry}

-- `last == nil || !last.Same(s)`: only then is the snapshot stored.
unfoldable pub remember : Entry → Snapshot → Entry
remember e s = if same e.last s then e else record e { last = s }

unfoldable pub bridge : Entry → Snapshot → ℕ → ℕ → Snapshot
bridge e s grace now = elim e.last [
  | none ↦ s
  | some last ↦ if ltb (e.last_seen + grace) now then s else some last
]

unfoldable pub with_grace : Entry → Snapshot → ℕ → ℕ → Entry × Snapshot
unfolding remember bridge
with_grace e s grace now =
    if grace == 0
    then (e, s)
    else if len s == 0
    then (e, bridge e s grace now)
    else (remember (record e { last_seen = now }) s, s)

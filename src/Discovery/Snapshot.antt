-- ===== src/Discovery/Snapshot.antt =====
-- discovery/watch.go, snapshot and Snapshot: one immutable state of a watch. `tag` stands for the
-- address of the state, which is all that `Same` compares.
pub mod Aligned
use consulx.Prelude.{
  ℕ, Bool, true, false, List, [], map, Option, none, some, ◌==◌, if◌then◌else◌, length, get_elem?,
}
use consulx.Discovery.Instance.{ServiceInstance, Endpoint, endpoint}

pub record SnapshotState : Type 0 where
  pub tag : ℕ
  pub list : List ServiceInstance
  pub endpoints : List Endpoint

-- The zero value of `Snapshot` holds no state.
abbrev pub Snapshot : Type 0
Snapshot = Option SnapshotState

unfoldable pub new_snapshot : ℕ → List ServiceInstance → SnapshotState
new_snapshot tag list = record { tag = tag; list = list; endpoints = map endpoint list }

abbrev pub instances : Snapshot → List ServiceInstance
instances none = []
instances (some s) = s.list

abbrev pub len : Snapshot → ℕ
len s = length (instances s)

abbrev pub same : Snapshot → Snapshot → Bool
same none none = true
same none (some t) = false
same (some s) none = false
same (some s) (some t) = s.tag == t.tag

-- `none` is an answer whose `ok` is false.
unfoldable pub pick :
    Snapshot → (List ServiceInstance → Option ServiceInstance) → Option ServiceInstance
pick s choose = choose (instances s)

endpoint_at : Snapshot → ℕ → Option Endpoint
endpoint_at none i = none
endpoint_at (some s) i = get_elem? s.endpoints i

-- An index out of range is an answer whose `ok` is false.
unfoldable pub pick_endpoint : Snapshot → (List ServiceInstance → Option ℕ) → Option Endpoint
unfolding endpoint_at
pick_endpoint s choose = elim (choose (instances s)) [ none ↦ none | some i ↦ endpoint_at s i ]

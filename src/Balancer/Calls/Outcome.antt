-- ===== src/Balancer/Calls/Outcome.antt =====
-- What Next and NextEndpoint answer, over whole calls.
use consulx.Prelude.{
  ℕ, zero, suc, ◌<◌, true, false, ◌||◌, List, [], ◌∷◌, none, some, Text, ◌≡◌, refl, arith, length,
  get_elem?, is_empty, if◌then◌else◌, ◌==◌, inl, inr, Bool-cases, get_elem?-map, get_elem?-lt,
  is_empty-length,
}
use consulx.Prelude.Predicates.{In}
use consulx.Discovery.Instance.{ServiceInstance, Endpoint, endpoint}
use consulx.Discovery.Snapshot.{Snapshot, instances, pick_endpoint}
use consulx.Balancer.{Entry, Balancer, err_closed}
use consulx.Balancer.Pick.Range.{Draws, IsIndexPicker, pick-pick_index}
use consulx.Balancer.Ejection.{eject_now}
use consulx.Balancer.Ejection.Available.{healthy, offered_lem}
use consulx.Balancer.Release.{close}
use consulx.Balancer.Calls.{
  Env, Result, ok, err, is_closed, Current, entry, current, next_in, next, next_endpoint_in,
  next_endpoint, resolve,
}
use consulx.Balancer.Calls.Post.{IsAligned, IsBuiltIn, CurrentPost, Meanwhile, current-Post}
use consulx.Balancer.Calls.Agree.{given, choose-Selects}

-- The answer of `NextEndpoint` that matches an answer of `Next`.
abbrev pub to_endpoint : Balancer × Result ServiceInstance → Balancer × Result Endpoint
to_endpoint (b, ok i) = (b, ok (endpoint i))
to_endpoint (b, err x) = (b, err x)

next_in_agrees :
    (env : Env) (service : Text) (c : Current)
    → Draws env.draw
    → CurrentPost c
    → next_endpoint_in env service c ≡ to_endpoint (next_in env service c)
unfolding next_in next_endpoint_in pick_endpoint
next_in_agrees env service (b, err x) d h = refl
next_in_agrees env service (b, ok (e, none)) d h = refl
next_in_agrees env service (b, ok (e, some s)) d h = elim (Bool-cases (is_empty s.list)) [
  | inl z ↦ ground (arith, z)
  | inr z ↦
      let (k, (lt, chosen, picked)) =
        choose-Selects env e (eject_now b env.later) s.list d h.1.index_picker
          (ground (arith, z, is_empty-length s.list)) in
      let (i, at) = get_elem?-lt s.list k lt in
      ground (arith, z, chosen, picked, at, h.2, get_elem?-map endpoint s.list k at)
]

-- With a built-in strategy, `NextEndpoint` answers the endpoint of the instance that `Next` answers at
-- the same moment, or the same error, and leaves the balancer in the same state. The random numbers
-- are in range, the endpoints of the watch's state are those of its instances, and what other
-- goroutines do keeps the pickers built in.
pub next_endpoint-next :
    (env : Env) (b : Balancer) (service : Text)
    → Draws env.draw
    → IsAligned env.snapshot
    → Meanwhile env
    → IsBuiltIn b
    → next_endpoint env b service ≡ to_endpoint (next env b service)
unfolding next next_endpoint
next_endpoint-next env b service d a keep h =
    next_in_agrees env service (current env b service) d (current-Post env b service a keep h)

-- A closed balancer, or one whose context is over, refuses every call and is not changed by it.
closed_refuses :
    (env : Env) (b : Balancer) (service : Text)
    → is_closed b ≡ true
    → (next env b service ≡ (b, err err_closed))
      × (next_endpoint env b service ≡ (b, err err_closed))
      × (resolve env b service ≡ (b, err err_closed))
unfolding next next_endpoint current entry resolve
closed_refuses env b service h = rw h (refl, refl, refl)

-- After Close, Next, NextEndpoint and Resolve answer ErrClosed for every service.
pub close_refuses :
    (env : Env) (b : Balancer) (service : Text)
    → (next env (close b).0 service ≡ ((close b).0, err err_closed))
      × (next_endpoint env (close b).0 service ≡ ((close b).0, err err_closed))
      × (resolve env (close b).0 service ≡ ((close b).0, err err_closed))
close_refuses env b service = closed_refuses env (close b).0 service (unfold close in refl)

get_elem?-In :
    (list : List ServiceInstance) (k : ℕ) {i : ServiceInstance}
    → get_elem? list k ≡ some i
    → In i list
get_elem?-In [] k h = cc
get_elem?-In (x ∷ xs) zero h = inl (cc)
get_elem?-In (x ∷ xs) (suc k) h = inr (get_elem?-In xs k h)

-- The instances among which `Next` selects at `now`: those that are not ejected, or all of them if
-- every one is ejected or ejection is off (`now` is 0).
abbrev pub candidates : Entry → ℕ → List ServiceInstance → List ServiceInstance
candidates e now list =
    if now == 0 || is_empty (healthy e.ejection now list) then list else healthy e.ejection now list

given-candidates :
    (e : Entry) (now : ℕ) (list : List ServiceInstance) → given e now list ≡ candidates e now list
given-candidates e now list = ground (arith, offered_lem e.ejection list now)

given-length :
    (e : Entry) (now : ℕ) (list : List ServiceInstance)
    → is_empty list ≡ false
    → 0 < length (given e now list)
given-length e now list h = ground (
  arith,
  h,
  given-candidates e now list,
  is_empty-length list,
  is_empty-length (healthy e.ejection now list),
)

-- From a state with instances, and with a built-in picker, `Next` answers an instance, and one of the
-- candidates: ejection never leaves a caller without one.
pub next_in-candidates :
    (env : Env) (service : Text) (b : Balancer) (e : Entry) (s : Snapshot)
    → Draws env.draw
    → IsIndexPicker e.picker
    → is_empty (instances s) ≡ false
    → (i : ServiceInstance) × ((next_in env service (b, ok (e, s))).1 ≡ ok i)
      × In i (candidates e (eject_now b env.later) (instances s))
unfolding next_in
next_in-candidates env service b e s d p h =
    let now = eject_now b env.later in
    let (k, lt, chosen, picked) =
      pick-pick_index env.draw e.picker (given e now (instances s)) d p
        (given-length e now (instances s) h) in
    let (i, at) = get_elem?-lt (given e now (instances s)) k lt in
    (
      i,
      ground (arith, h, picked, at),
      rw (given-candidates e now (instances s)) at (get_elem?-In (given e now (instances s)) k at),
    )

-- ===== src/Balancer/Calls/Agree.antt =====
-- NextEndpoint gives the endpoint of the instance that Next gives.
use consulx.Prelude.{
  ℕ, zero, suc, ◌+◌, ◌<◌, ◌≤◌, List, [], ◌∷◌, none, some, ◌≡◌, ◌⊎◌, refl, arith, length, get_elem?,
  if◌then◌else◌, ◌==◌, inl, inr, Option-cases, get_elem?-lt,
}
use consulx.Prelude.Dict.{Dict}
use consulx.Prelude.Predicates.{All}
use consulx.Discovery.Instance.{ServiceInstance}
use consulx.Balancer.{Entry}
use consulx.Balancer.Pick.{at_index, pick}
use consulx.Balancer.Pick.Range.{Draws, IsIndexPicker, pick-pick_index}
use consulx.Balancer.Ejection.{kept, available, subset, offered}
use consulx.Balancer.Calls.{Env, choose}

abbrev pub InRange : List ServiceInstance → ℕ → Type 0
InRange list k = k < length list

-- The index of a kept instance, in the list that holds the kept ones only, and in the full list.
get_elem?-subset :
    (list : List ServiceInstance) (ks : List ℕ) (i : ℕ) {k : ℕ}
    → All (InRange list) ks
    → get_elem? ks i ≡ some k
    → get_elem? (subset list ks) i ≡ get_elem? list k
unfolding subset
get_elem?-subset list [] i a h = cc
get_elem?-subset list (j ∷ ks) zero a h = let (x, e) = get_elem?-lt list j a.0 in ground (arith, e)
get_elem?-subset list (j ∷ ks) (suc i) a h =
    let (x, e) = get_elem?-lt list j a.0 in ground (arith, e, get_elem?-subset list ks i a.1 h)

length-subset :
    (list : List ServiceInstance) (ks : List ℕ)
    → All (InRange list) ks
    → length (subset list ks) ≡ length ks
unfolding subset
length-subset list [] a = refl
length-subset list (j ∷ ks) a =
    let (x, e) = get_elem?-lt list j a.0 in ground (arith, e, length-subset list ks a.1)

kept-InRange :
    (set : Dict ℕ) (now n : ℕ) (list whole : List ServiceInstance)
    → n + length list ≤ length whole
    → All (InRange whole) (kept set now n list)
unfolding kept
kept-InRange set now n [] whole h = tt
kept-InRange set now n (x ∷ xs) whole h =
    ground (arith, kept-InRange set now (suc n) xs whole (omega arith))

available-InRange :
    (set : Dict ℕ) (now : ℕ) (list : List ServiceInstance) (ks : List ℕ)
    → available set list now ≡ some ks
    → All (InRange list) ks × (0 < length ks)
unfolding available
available-InRange set now list ks h =
    ground (arith, kept-InRange set now 0 list list (omega arith), h)

All-get_elem? :
    (list : List ServiceInstance) (ks : List ℕ) (i : ℕ) {k : ℕ}
    → All (InRange list) ks
    → get_elem? ks i ≡ some k
    → k < length list
All-get_elem? list [] i a h = cc
All-get_elem? list (j ∷ ks) zero a h = ground (arith, a.0, h)
All-get_elem? list (j ∷ ks) (suc i) a h = All-get_elem? list ks i a.1 h

-- The list that `Next` gives to the picker.
abbrev pub given : Entry → ℕ → List ServiceInstance → List ServiceInstance
given e now list = if now == 0 then list else offered e.ejection list now

-- Both calls select the same instance of the full list, and leave the picker in the same state.
abbrev pub Selects : Env → Entry → ℕ → List ServiceInstance → ℕ → Type 0
Selects env e now list k =
    (k < length list)
    × (choose env e now list ≡ (some (at_index k), (pick env.draw e.picker (given e now list)).1))
    × ((pick env.draw e.picker (given e now list)).0 ≡ get_elem? list k)

choose_whole :
    (env : Env) (e : Entry) (now : ℕ) (list : List ServiceInstance)
    → Draws env.draw
    → IsIndexPicker e.picker
    → 0 < length list
    → (now ≡ 0) ⊎ (available e.ejection list now ≡ none)
    → (k : ℕ) × Selects env e now list k
unfolding choose offered
choose_whole env e now list d b h w =
    let (k, lt, at, got) = pick-pick_index env.draw e.picker list d b h in
    (k, (lt, ground (arith, at, w), ground (arith, got, w)))

choose_kept :
    (env : Env) (e : Entry) (now : ℕ) (list : List ServiceInstance) (ks : List ℕ)
    → Draws env.draw
    → IsIndexPicker e.picker
    → 0 < now
    → available e.ejection list now ≡ some ks
    → (k : ℕ) × Selects env e now list k
unfolding choose offered
choose_kept env e now list ks d b t w =
    let (a, some_kept) = available-InRange e.ejection now list ks w in
    let size = length-subset list ks a in
    let (i, lt, at, got) =
      pick-pick_index env.draw e.picker (subset list ks) d b (rw size some_kept) in
    let (k, e') = get_elem?-lt ks i (rw size at lt) in
    let e'' = get_elem?-subset list ks i a e' in
    (k, (All-get_elem? list ks i a e', ground (arith, at, e', w), ground (arith, got, e'', w)))

pub choose-Selects :
    (env : Env) (e : Entry) (now : ℕ) (list : List ServiceInstance)
    → Draws env.draw
    → IsIndexPicker e.picker
    → 0 < length list
    → (k : ℕ) × Selects env e now list k
choose-Selects env e zero list d b h = choose_whole env e zero list d b h (inl refl)
choose-Selects env e (suc now) list d b h =
    elim (Option-cases (available e.ejection list (suc now))) [
      | inl w ↦ choose_whole env e (suc now) list d b h (inr w)
      | inr (ks, w) ↦ choose_kept env e (suc now) list ks d b (omega arith) w
    ]

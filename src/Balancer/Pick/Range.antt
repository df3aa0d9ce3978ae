-- ===== src/Balancer/Pick/Range.antt =====
-- The built-in pickers select an index of the list, and `Pick` and `pickIndex` agree.
use native.Mathlib.Nat.{mod-lt}
use consulx.Prelude.{ℕ, ◌<◌, ◌%◌, List, ◌≡◌, refl, arith, length, get_elem?}
use consulx.Discovery.Instance.{ServiceInstance}
use consulx.Balancer.{Picker, round_robin, random, weighted, custom}
use consulx.Balancer.Pick.{total, weighted_index, round_robin_index, at_index, pick_index, pick}
use consulx.Balancer.Pick.Share.{walk-lt}

-- `rand.IntN(n)` answers a number below a positive `n`.
abbrev pub Draws : (ℕ → ℕ) → Type 0
Draws draw = (n : ℕ) → 0 < n → draw n < n

pub weighted_index-lt :
    (draw : ℕ → ℕ) (list : List ServiceInstance)
    → Draws draw
    → 0 < length list
    → weighted_index draw list < length list
unfolding weighted_index
weighted_index-lt draw list d h =
    ground (arith, d (length list), d (total list), walk-lt list 0 (draw (total list)))

-- The picker is one of those that select an index.
abbrev pub IsIndexPicker : Picker → Type 0
IsIndexPicker (custom f) = ⊥
IsIndexPicker (round_robin n) = Unit
IsIndexPicker random = Unit
IsIndexPicker weighted = Unit

-- A built-in picker selects an index of the list, and `Pick` gives the instance there and leaves the
-- picker in the same state.
pub pick-pick_index :
    (draw : ℕ → ℕ) (p : Picker) (list : List ServiceInstance)
    → Draws draw
    → IsIndexPicker p
    → 0 < length list
    → (k : ℕ) × (k < length list)
      × (pick_index draw p list ≡ (at_index k, (pick draw p list).1))
      × ((pick draw p list).0 ≡ get_elem? list k)
unfolding pick_index pick round_robin_index
pick-pick_index draw (round_robin n) list d b h = (n % length list, mod-lt n h, refl, refl)
pick-pick_index draw random list d b h = (draw (length list), d (length list) h, refl, refl)
pick-pick_index draw weighted list d b h =
    (weighted_index draw list, weighted_index-lt draw list d h, refl, refl)
pick-pick_index draw (custom f) list d b h = absurd b

-- ===== src/Balancer/Pick.antt =====
-- balancer/balancer.go: the strategies, and pickIndex. `draw n` is the value of `rand.IntN(n)`.
pub mod Rotation
pub mod Share
pub mod Range
use consulx.Prelude.{
  ℕ, zero, suc, ◌+◌, ◌-◌, ◌%◌, ◌^◌, Bool, ◌&&◌, List, [], ◌∷◌, Option, none, some, text_eq, ◌==◌,
  ltb, if◌then◌else◌, length, get_elem?,
}
use consulx.Prelude.Int.{pos_part}
use consulx.Discovery.Instance.{ServiceInstance, weight}
use consulx.Balancer.{Picker, round_robin, random, weighted, custom}

-- `max(list[k].Weight(), 0)`.
unfoldable pub share : ServiceInstance → ℕ
share i = pos_part (weight i)

unfoldable pub total : List ServiceInstance → ℕ
total [] = 0
total (i ∷ is) = share i + total is

-- The second loop of `weighted.pickIndex`: `k` is the index of the head, `r` what is left. Behind the
-- last instance it answers `len(list) - 1`.
unfoldable pub walk : ℕ → ℕ → List ServiceInstance → ℕ
walk k r [] = k - 1
walk k r (i ∷ is) = let rest = walk (suc k) (r - share i) is in if ltb r (share i) then k else rest

unfoldable pub weighted_index : (ℕ → ℕ) → List ServiceInstance → ℕ
weighted_index draw list =
    if total list == 0 then draw (length list) else walk 0 (draw (total list)) list

-- `roundRobin.pickIndex` and the counter after it, an atomic uint64.
unfoldable pub round_robin_index : ℕ → List ServiceInstance → ℕ × ℕ
round_robin_index n list = (n % length list, (n + 1) % 2 ^ 64)

pub data Picked : Type 0 where
  at_index : ℕ → Picked
  foreign : ServiceInstance → Picked

same_place : ServiceInstance → ServiceInstance → Bool
same_place a b =
    text_eq a.id b.id
    && (text_eq a.node.name b.node.name && (text_eq a.address b.address && a.port == b.port))

-- The loop of `pickIndex` that locates the instance of a custom picker.
unfoldable pub locate : ℕ → ServiceInstance → List ServiceInstance → Picked
unfolding same_place
locate k inst [] = foreign inst
locate k inst (i ∷ is) =
    let rest = locate (suc k) inst is in if same_place i inst then at_index k else rest

-- `pickIndex`: the selection, and the picker after it.
unfoldable pub pick_index : (ℕ → ℕ) → Picker → List ServiceInstance → Picked × Picker
unfolding round_robin_index weighted_index locate
pick_index draw (round_robin n) list =
    (at_index (round_robin_index n list).0, round_robin (round_robin_index n list).1)
pick_index draw random list = (at_index (draw (length list)), random)
pick_index draw weighted list = (at_index (weighted_index draw list), weighted)
pick_index draw (custom f) list = (locate 0 (f list) list, custom f)

-- `Picker.Pick`: the instance, and the picker after it. `none` is an index out of range.
unfoldable pub pick : (ℕ → ℕ) → Picker → List ServiceInstance → Option ServiceInstance × Picker
unfolding round_robin_index weighted_index
pick draw (round_robin n) list =
    (get_elem? list (round_robin_index n list).0, round_robin (round_robin_index n list).1)
pick draw random list = (get_elem? list (draw (length list)), random)
pick draw weighted list = (get_elem? list (weighted_index draw list), weighted)
pick draw (custom f) list = (some (f list), custom f)

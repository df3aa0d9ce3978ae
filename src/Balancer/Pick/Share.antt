-- ===== src/Balancer/Pick/Share.antt =====
-- The weighted strategy: every instance has as many draws as its weight.
use native.Mathlib.Nat.{zero-add}
use consulx.Prelude.{ℕ, zero, suc, ◌+◌, ◌-◌, ◌≤◌, ◌<◌, List, [], ◌∷◌, ◌≡◌, ◌↔◌, arith, length, take}
use consulx.Discovery.Instance.{ServiceInstance}
use consulx.Balancer.Pick.{share, total, walk}

pub walk-ge : (list : List ServiceInstance) (j r : ℕ) → r < total list → j ≤ walk j r list
unfolding walk total
walk-ge [] j r h = absurd (omega arith)
walk-ge (i ∷ is) j r h = ground (arith, walk-ge is (suc j) (r - share i))

pub walk-lt :
    (list : List ServiceInstance) (j r : ℕ) → r < total list → walk j r list < j + length list
unfolding walk total
walk-lt [] j r h = absurd (omega arith)
walk-lt (i ∷ is) j r h = ground (arith, walk-lt is (suc j) (r - share i))

walk_iff :
    (list : List ServiceInstance) (j r k : ℕ)
    → r < total list
    → (walk j r list ≡ j + k) ↔ ((total (take k list) ≤ r) × (r < total (take (suc k) list)))
unfolding walk total
walk_iff [] j r k h = absurd (omega arith)
walk_iff (i ∷ is) j r zero h = ground (arith, walk-ge is (suc j) (r - share i))
walk_iff (i ∷ is) j r (suc k) h = ground (arith, walk_iff is (suc j) (r - share i) k)

-- A draw below the sum of the weights selects the index `k` exactly when it lies from the sum of the
-- weights before `k` up to that sum with the weight of `k`: an instance is selected by as many draws
-- as its weight (none, if that is not positive).
pub walk_share :
    (list : List ServiceInstance) (r k : ℕ)
    → r < total list
    → (walk 0 r list ≡ k) ↔ ((total (take k list) ≤ r) × (r < total (take (suc k) list)))
walk_share list r k h = rw (zero-add k) at at_k
  where
    at_k : (walk 0 r list ≡ 0 + k) ↔ ((total (take k list) ≤ r) × (r < total (take (suc k) list)))
    at_k = walk_iff list 0 r k h

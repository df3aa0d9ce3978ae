-- ===== src/Balancer/Pick/Rotation.antt =====
-- Round robin takes the instances in turn.
use native.Mathlib.Nat.{mod-lt, zero-add, add-zero, mod-eq_of_lt, mod-add-mod, div-add-mod}
use mathlib.Core.Path.{subst}
use consulx.Prelude.{
  ℕ, zero, suc, ◌+◌, ◌-◌, ◌%◌, ◌^◌, ◌≤◌, ◌<◌, List, [], ◌∷◌, ◌≡◌, refl, ap, ◌∙◌, arith, length,
  ◌==◌, ltb, leb, ◌&&◌, if◌then◌else◌,
}
use consulx.Discovery.Instance.{ServiceInstance}
use consulx.Balancer.Pick.{round_robin_index}

-- The indices of the next `count` calls on one list.
unfoldable pub indices : ℕ → ℕ → List ServiceInstance → List ℕ
indices zero n list = []
indices (suc count) n list =
    (round_robin_index n list).0 ∷ indices count (round_robin_index n list).1 list

-- How often `k` occurs.
unfoldable pub occurrences : ℕ → List ℕ → ℕ
occurrences k [] = 0
occurrences k (j ∷ js) = (if j == k then 1 else 0) + occurrences k js

mod_step : (n l : ℕ) → n % l + 1 < l → (n + 1) % l ≡ n % l + 1
mod_step n l h = grind (arith, mod-add-mod, mod-eq_of_lt)

mod_wrap : (n l : ℕ) → 0 < l → (n + (l - n % l)) % l ≡ 0
mod_wrap n l h = grind (arith, mod-add-mod, mod-eq_of_lt, div-add-mod)

-- The counter does not wrap within these calls.
abbrev NoWrap : ℕ → ℕ → Type 0
NoWrap n count = n + count < 2 ^ 64

occurrences-step :
    (count n k : ℕ) (list : List ServiceInstance)
    → NoWrap n (suc count)
    → occurrences k (indices (suc count) n list)
      ≡ (if n % length list == k then 1 else 0) + occurrences k (indices count (n + 1) list)
unfolding occurrences indices round_robin_index
occurrences-step count n k list w = let next : (n + 1) % 2 ^ 64 ≡ n + 1 = omega arith in rw next

occurs_in : ℕ → ℕ → ℕ → ℕ
occurs_in k lo count = if leb lo k && ltb k (lo + count) then 1 else 0

occurs_in_step :
    (k lo count : ℕ)
    → (if lo == k then 1 else 0) + occurs_in k (lo + 1) count ≡ occurs_in k lo (suc count)
unfolding occurs_in
occurs_in_step k lo count = ground arith

occurs_in_one :
    (k lo n : ℕ) (list : List ServiceInstance)
    → (if lo == k then 1 else 0) + occurrences k (indices 0 n list) ≡ occurs_in k lo 1
unfolding occurs_in occurrences indices
occurs_in_one k lo n list = ground arith

-- While the counter stays below a multiple of the length, the indices ascend.
ascending :
    (count n k : ℕ) (list : List ServiceInstance)
    → NoWrap n count
    → n % length list + count ≤ length list
    → occurrences k (indices count n list) ≡ occurs_in k (n % length list) count
ascending zero n k list w h = unfold occurrences indices occurs_in in ground arith
ascending (suc zero) n k list w h =
    occurrences-step zero n k list w ∙ occurs_in_one k (n % length list) (n + 1) list
ascending (suc (suc count)) n k list w h =
    let step = mod_step n (length list) (omega arith) in
    occurrences-step (suc count) n k list w
    ∙ ap (λ (t : ℕ). (if n % length list == k then 1 else 0) + t)
        (ascending (suc count) (n + 1) k list (omega arith) (rw step (omega arith)))
    ∙ rw step (occurs_in_step k (n % length list) (suc count))

occurrences-split :
    (a b n k : ℕ) (list : List ServiceInstance)
    → NoWrap n (a + b)
    → occurrences k (indices (a + b) n list)
      ≡ occurrences k (indices a n list) + occurrences k (indices b (n + a) list)
occurrences-split zero b n k list w =
    rw (zero-add, add-zero) (unfold occurrences indices in omega arith)
occurrences-split (suc a) b n k list w =
    let e : suc a + b ≡ suc (a + b) = omega arith in
    let f : n + suc a ≡ n + 1 + a = omega arith in
    rw (e, f)
      (omega (
        arith,
        occurrences-step (a + b) n k list (omega arith),
        occurrences-step a n k list (omega arith),
        occurrences-split a b (n + 1) k list (omega arith),
      ))

occurs_in_parts :
    (k lo up : ℕ) → occurs_in k lo up + occurs_in k 0 lo ≡ (if ltb k (up + lo) then 1 else 0)
unfolding occurs_in
occurs_in_parts k lo up = ground arith

-- The two parts of a round: up to the end of the list, and from its start.
round_parts :
    (lo up n k : ℕ) (list : List ServiceInstance)
    → n % length list ≡ lo
    → up + lo ≡ length list
    → (n + up) % length list ≡ 0
    → NoWrap n (up + lo)
    → occurrences k (indices (up + lo) n list) ≡ (if ltb k (up + lo) then 1 else 0)
round_parts lo up n k list e whole wrap w =
    occurrences-split up lo n k list w
    ∙ rw
        (
          ascending up n k list (omega arith) (omega arith),
          ascending lo (n + up) k list (omega arith) (rw wrap (omega arith)),
          e,
          wrap,
        )
        (occurs_in_parts k lo up)

-- Over as many calls as there are instances, from any counter value that does not wrap meanwhile,
-- every index is taken exactly once, and no other. The list is not empty.
pub round_robin_fair :
    (n k : ℕ) (list : List ServiceInstance)
    → 0 < length list
    → n + length list < 2 ^ 64
    → occurrences k (indices (length list) n list) ≡ (if ltb k (length list) then 1 else 0)
round_robin_fair n k list h w =
    let low : n % length list < length list = mod-lt n h in
    let whole : length list - n % length list + n % length list ≡ length list = omega arith in
    subst (λ t. occurrences k (indices t n list) ≡ (if ltb k t then 1 else 0)) whole
      (round_parts (n % length list) (length list - n % length list) n k list refl whole
        (mod_wrap n (length list) h) (omega arith))

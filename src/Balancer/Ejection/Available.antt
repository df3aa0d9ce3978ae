-- ===== src/Balancer/Ejection/Available.antt =====
-- The instances that `available` leaves are those that are not ejected, and there is always one.
use native.Mathlib.Nat.{zero-add}
use consulx.Prelude.{
  ℕ, suc, ◌+◌, Bool, false, not, List, [], ◌∷◌, some, ◌≡◌, refl, ap, ◌∙◌, arith, length, keep,
  get_elem?, is_empty, if◌then◌else◌, length-keep, is_empty-length,
}
use consulx.Prelude.Dict.{Dict, lookup}
use consulx.Discovery.Instance.{ServiceInstance}
use consulx.Balancer.Ejection.{ejected, kept, available, subset, offered}

abbrev pub healthy : Dict ℕ → ℕ → List ServiceInstance → List ServiceInstance
healthy set now list = keep (λ i. not (ejected set now i)) list

-- The kept indices, read in a list that holds `list` from index `n` on.
subset-kept :
    (set : Dict ℕ) (now n : ℕ) (whole list : List ServiceInstance)
    → ((i : ℕ) → get_elem? whole (n + i) ≡ get_elem? list i)
    → subset whole (kept set now n list) ≡ healthy set now list
unfolding subset kept
subset-kept set now n whole [] at = refl
subset-kept set now n whole (x ∷ xs) at =
    let here : get_elem? whole n ≡ some x = ap (get_elem? whole) (omega arith) ∙ at 0 in
    let rest =
      subset-kept set now (suc n) whole xs (λ i. ap (get_elem? whole) (omega arith) ∙ at (suc i)) in
    ground (arith, here, rest)

length-kept :
    (set : Dict ℕ) (now n : ℕ) (list : List ServiceInstance)
    → length (kept set now n list) ≡ length (healthy set now list)
unfolding kept
length-kept set now n [] = refl
length-kept set now n (x ∷ xs) = ground (arith, length-kept set now (suc n) xs)

-- A list of which `keep` drops nothing.
keep_all :
    (p : ServiceInstance → Bool) (list : List ServiceInstance)
    → length (keep p list) ≡ length list
    → keep p list ≡ list
keep_all p [] h = refl
keep_all p (x ∷ xs) h = ground (arith, length-keep p xs, keep_all p xs)

pub ejected-nil : (now : ℕ) (i : ServiceInstance) → ejected [] now i ≡ false
unfolding ejected lookup
ejected-nil now i = refl

healthy-nil : (now : ℕ) (list : List ServiceInstance) → healthy [] now list ≡ list
healthy-nil now [] = refl
healthy-nil now (x ∷ xs) = ground (arith, ejected-nil now x, healthy-nil now xs)

-- The picker is offered exactly the instances that are not ejected, in their order; where every
-- instance is ejected, it is offered them all.
pub offered_lem :
    (set : Dict ℕ) (list : List ServiceInstance) (now : ℕ)
    → offered set list now
      ≡ (if is_empty (healthy set now list) then list else healthy set now list)
unfolding offered available
offered_lem [] list now = rw healthy-nil (ground arith)
offered_lem (s ∷ set) list now = ground (
  arith,
  length-kept (s ∷ set) now 0 list,
  is_empty-length (healthy (s ∷ set) now list),
  subset-kept (s ∷ set) now 0 list list (λ i. ap (get_elem? list) (zero-add i)),
  keep_all (λ i. not (ejected (s ∷ set) now i)) list,
)

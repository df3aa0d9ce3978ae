-- ===== src/Discovery/Snapshot/Aligned.antt =====
-- The endpoints of a snapshot are those of its instances, index by index.
use consulx.Prelude.{
  ℕ, zero, suc, List, [], ◌∷◌, map, Option, none, some, ◌≡◌, refl, get_elem?, Option-cases, inl,
  inr, arith,
}
use consulx.Discovery.Instance.{ServiceInstance, Endpoint, endpoint}
use consulx.Discovery.Snapshot.{new_snapshot, pick, pick_endpoint}

abbrev pub endpoint_of : Option ServiceInstance → Option Endpoint
endpoint_of none = none
endpoint_of (some i) = some (endpoint i)

get_elem?-endpoint :
    (list : List ServiceInstance) (i : ℕ)
    → get_elem? (map endpoint list) i ≡ endpoint_of (get_elem? list i)
get_elem?-endpoint [] i = refl
get_elem?-endpoint (x ∷ xs) zero = refl
get_elem?-endpoint (x ∷ xs) (suc i) = get_elem?-endpoint xs i

-- The instance at the index that `choose` selects.
abbrev pub selected :
    (List ServiceInstance → Option ℕ) → List ServiceInstance → Option ServiceInstance
selected choose list = elim (choose list) [ none ↦ none | some i ↦ get_elem? list i ]

-- Picking an endpoint by index gives the endpoint of the instance that picking the instance at that
-- index gives, and none exactly when the index is out of range or none is chosen.
pub pick_endpoint-pick :
    (tag : ℕ) (list : List ServiceInstance) (choose : List ServiceInstance → Option ℕ)
    → pick_endpoint (some (new_snapshot tag list)) choose
      ≡ endpoint_of (pick (some (new_snapshot tag list)) (selected choose))
unfolding pick_endpoint pick new_snapshot
pick_endpoint-pick tag list choose = elim (Option-cases (choose list)) [
  | inl e ↦ ground (arith, e)
  | inr (i, e) ↦ ground (arith, e, get_elem?-endpoint list i)
]

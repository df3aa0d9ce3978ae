-- ===== src/Discovery/Equal/Endpoints.antt =====
-- A response that a watch takes for unchanged has the endpoints that were published.
use consulx.Prelude.{true, &&-true, List, [], ◌∷◌, map, text_eq_iff, ◌≡◌, refl, arith}
use consulx.Prelude.Int.{ℤ, pos, negsuc, eq_ℤ}
use consulx.Discovery.Instance.{ServiceInstance, endpoint, weight, host_port}
use consulx.Discovery.Equal.{equal_instance, slices_equal, weights_eq}

eq_ℤ_lem : (a b : ℤ) → eq_ℤ a b ≡ true → a ≡ b
eq_ℤ_lem (pos m) (pos n) h = ground (arith, h)
eq_ℤ_lem (pos m) (negsuc n) h = cc
eq_ℤ_lem (negsuc m) (pos n) h = cc
eq_ℤ_lem (negsuc m) (negsuc n) h = ground (arith, h)

-- What callers of a watch use of an instance.
pub record Alike (a b : ServiceInstance) : Type 0 where
  pub id : a.id ≡ b.id
  pub node : a.node.name ≡ b.node.name
  pub address : a.address ≡ b.address
  pub port : a.port ≡ b.port
  pub scheme : a.scheme ≡ b.scheme
  pub status : a.status ≡ b.status
  pub weights : a.weights ≡ b.weights

equal_instance-Alike : (a b : ServiceInstance) → equal_instance a b ≡ true → Alike a b
unfolding equal_instance weights_eq
equal_instance-Alike a b h = ground (
  arith,
  h,
  text_eq_iff a.id b.id,
  text_eq_iff a.node.name b.node.name,
  text_eq_iff a.address b.address,
  text_eq_iff a.scheme b.scheme,
  text_eq_iff a.status b.status,
  eq_ℤ_lem a.weights.passing b.weights.passing,
  eq_ℤ_lem a.weights.warning b.weights.warning,
)

Alike-endpoint : (a b : ServiceInstance) → Alike a b → endpoint a ≡ endpoint b
unfolding endpoint host_port
Alike-endpoint a b h = cc (h.id, h.node, h.address, h.port, h.scheme)

Alike-weight : (a b : ServiceInstance) → Alike a b → weight a ≡ weight b
unfolding weight
Alike-weight a b h = rw (h.status, h.weights) refl

-- A response that the watch suppresses, since its instances equal those that were sent last, hides no
-- change that a caller could act on: it has the same endpoints and the same weights, in order.
pub slices_equal-endpoint :
    (is last : List ServiceInstance)
    → slices_equal equal_instance is last ≡ true
    → (map endpoint is ≡ map endpoint last) × (map weight is ≡ map weight last)
unfolding slices_equal
slices_equal-endpoint [] [] h = (refl, refl)
slices_equal-endpoint [] (y ∷ ys) h = cc
slices_equal-endpoint (x ∷ xs) [] h = cc
slices_equal-endpoint (x ∷ xs) (y ∷ ys) h =
    let (here, later) = &&-true (equal_instance x y) (slices_equal equal_instance xs ys) h in
    let alike = equal_instance-Alike x y here in
    let rest = slices_equal-endpoint xs ys later in
    (cc (Alike-endpoint x y alike, rest.0), cc (Alike-weight x y alike, rest.1))

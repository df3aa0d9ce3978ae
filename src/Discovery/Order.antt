-- ===== src/Discovery/Order.antt =====
-- discovery/instance.go, sortInstances: instances by ID, then by node name.
use Prim.Native.Nat.{Ordering}
use mathlib.Core.List.{Permᴰ}
use consulx.Prelude.{Bool, true, List, ◌≡◌, arith}
use consulx.Prelude.{text_compare}
use consulx.Prelude.Predicates.{All-In, In}
use consulx.Prelude.Sort
use consulx.Prelude.Sort.Unique
use consulx.Prelude.TextOrder.{
  flip, not_gt, text_compare-flip, text_compare_eq, text_compare_lt_trans, text_compare_refl,
}
use consulx.Discovery.Instance.{ServiceInstance}

-- The comparison function given to `slices.SortFunc`.
unfoldable pub compare_instances : ServiceInstance → ServiceInstance → Ordering
compare_instances a b = elim (text_compare a.id b.id) [
  | Ordering.lt ↦ Ordering.lt
  | Ordering.gt ↦ Ordering.gt
  | Ordering.eq ↦ text_compare a.node.name b.node.name
]

abbrev pub instance_leq : ServiceInstance → ServiceInstance → Bool
instance_leq a b = not_gt (compare_instances a b)

unfoldable pub sort_instances : List ServiceInstance → List ServiceInstance
unfolding compare_instances Sort.sort text_compare
sort_instances list = Sort.sort instance_leq list

compare_instances-flip :
    (a b : ServiceInstance) → compare_instances b a ≡ flip (compare_instances a b)
unfolding compare_instances
compare_instances-flip a b =
    ground (arith, text_compare-flip a.id b.id, text_compare-flip a.node.name b.node.name)

compare_instances_trans :
    (a b c : ServiceInstance)
    → instance_leq a b ≡ true
    → instance_leq b c ≡ true
    → instance_leq a c ≡ true
unfolding compare_instances
compare_instances_trans a b c h k = ground (
  arith,
  text_compare_lt_trans a.id b.id c.id,
  text_compare_eq a.id b.id,
  text_compare_eq b.id c.id,
  text_compare_refl b.id,
  text_compare_lt_trans a.node.name b.node.name c.node.name,
  text_compare_eq a.node.name b.node.name,
  text_compare_eq b.node.name c.node.name,
)

instance_leq-IsTotalOrder : Sort.IsTotalOrder instance_leq
instance_leq-IsTotalOrder = record {
  total = λ a b h. ground (arith, compare_instances-flip a b);
  trans = compare_instances_trans;
}

-- Instances are identified by ID and node name: two of the list with the same ID and the same node
-- name are one.
abbrev pub Identified : List ServiceInstance → Type 0
Identified list =
    (a b : ServiceInstance)
    → In a list
    → In b list
    → a.id ≡ b.id
    → a.node.name ≡ b.node.name
    → a ≡ b

tie :
    (a b : ServiceInstance)
    → instance_leq a b ≡ true
    → instance_leq b a ≡ true
    → (a.id ≡ b.id) × (a.node.name ≡ b.node.name)
unfolding compare_instances
tie a b h k = ground (
  arith,
  text_compare-flip a.id b.id,
  text_compare-flip a.node.name b.node.name,
  text_compare_eq a.id b.id,
  text_compare_eq a.node.name b.node.name,
)

-- The result of `sort_instances` has the instances of the list, each as often, in ascending order.
pub sort_instances-perm :
    (list : List ServiceInstance)
    → Permᴰ (sort_instances list) list × Sort.IsSorted instance_leq (sort_instances list)
unfolding sort_instances
sort_instances-perm list = (
  Sort.sort-perm instance_leq list,
  Sort.sort-IsSorted instance_leq instance_leq-IsTotalOrder list,
)

-- Two responses that list the same instances in different orders become the same list.
pub sort_instances_stable :
    {xs ys : List ServiceInstance}
    → Permᴰ xs ys
    → Identified xs
    → sort_instances xs ≡ sort_instances ys
unfolding sort_instances
sort_instances_stable {xs} p h =
    Unique.sort_of_perm instance_leq instance_leq-IsTotalOrder (λ a. In a xs)
      (λ a b ha hb l g. h a b ha hb (tie a b l g).0 (tie a b l g).1) p (All-In xs)

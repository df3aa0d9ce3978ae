-- ===== src/Discovery/Equal.antt =====
-- discovery/instance.go, equalInstance: the typed comparison of the watch path.
pub mod Endpoints
use consulx.Prelude.{
  Bool, true, false, ◌&&◌, List, [], ◌∷◌, text_eq, ◌==◌, if◌then◌else◌, length, some, none,
}
use consulx.Prelude.Dict.{Dict, lookup}
use consulx.Prelude.Int.{eq_ℤ}
use consulx.Discovery.Instance.{ServiceInstance, Port, TaggedAddress, Weights, Check}

-- `==` on booleans, and on the structs whose fields are strings and numbers.
bool_eq : Bool → Bool → Bool
bool_eq true b = b
bool_eq false true = false
bool_eq false false = true

port_eq : Port → Port → Bool
unfolding bool_eq
port_eq a b = text_eq a.name b.name && (a.port == b.port && bool_eq a.is_default b.is_default)

tagged_eq : TaggedAddress → TaggedAddress → Bool
tagged_eq a b = text_eq a.address b.address && a.port == b.port

weights_eq : Weights → Weights → Bool
weights_eq a b = eq_ℤ a.passing b.passing && eq_ℤ a.warning b.warning

check_eq : Check → Check → Bool
check_eq a b =
    text_eq a.id b.id
    && (text_eq a.name b.name
        && (text_eq a.status b.status
            && (text_eq a.output b.output
                && (text_eq a.service_id b.service_id && text_eq a.kind b.kind))))

-- `slices.Equal`.
pub slices_equal {ℓ} : {A : Type ℓ} → (A → A → Bool) → List A → List A → Bool
slices_equal eq [] [] = true
slices_equal eq [] (y ∷ ys) = false
slices_equal eq (x ∷ xs) [] = false
slices_equal eq (x ∷ xs) (y ∷ ys) = eq x y && slices_equal eq xs ys

-- `maps.Equal`: the same number of keys, and each key of the first bound alike in the second.
has_all {ℓ} : {V : Type ℓ} → (V → V → Bool) → Dict V → Dict V → Bool
has_all eq [] b = true
has_all eq ((k, v) ∷ a) b =
    let rest = has_all eq a b in
    elim (lookup k b) [ none ↦ false | some w ↦ if eq v w then rest else false ]

maps_equal {ℓ} : {V : Type ℓ} → (V → V → Bool) → Dict V → Dict V → Bool
unfolding has_all
maps_equal eq a b = length a == length b && has_all eq a b

unfoldable pub equal_instance : ServiceInstance → ServiceInstance → Bool
unfolding port_eq tagged_eq weights_eq check_eq slices_equal maps_equal text_eq lookup
equal_instance a b =
    text_eq a.id b.id
    && (text_eq a.name b.name
        && (text_eq a.address b.address
            && (a.port == b.port
                && (text_eq a.scheme b.scheme
                    && (weights_eq a.weights b.weights
                        && (text_eq a.datacenter b.datacenter
                            && (text_eq a.namespace b.namespace
                                && (text_eq a.partition b.partition
                                    && (text_eq a.status b.status
                                        && (text_eq a.node.id b.node.id
                                            && (text_eq a.node.name b.node.name
                                                && (text_eq a.node.address b.node.address
                                                    && (text_eq a.node.datacenter b.node.datacenter
                                                        && (slices_equal port_eq a.ports b.ports
                                                            && (slices_equal text_eq a.tags b.tags
                                                            && (slices_equal check_eq a.checks
                                                            b.checks
                                                            && (maps_equal text_eq a.meta b.meta
                                                            && (maps_equal tagged_eq
                                                            a.tagged_addresses b.tagged_addresses
                                                            && (maps_equal text_eq
                                                            a.node.tagged_addresses
                                                            b.node.tagged_addresses
                                                            && maps_equal text_eq a.node.meta
                                                            b.node.meta)))))))))))))))))))

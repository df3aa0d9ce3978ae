-- ===== src/Discovery/Diff/Keys.antt =====
-- Looking an instance up by its key, in a list and in the map that `diff` builds from the list.
use consulx.Prelude.{
  ℕ, suc, ◌-◌, ◌≤◌, true, false, List, [], ◌∷◌, Option, some, none, ◌≡◌, refl, ◌↔◌, text_eq_iff,
  if◌then◌else◌, get_elem?, is_some, arith, Option-cases, inl, inr,
}
use consulx.Prelude.Predicates.{All}
use consulx.Discovery.Instance.{ServiceInstance}
use consulx.Discovery.Diff.{InstanceKey, key, key_eq, Places, get, delete, places}

pub key_eq_iff : (a b : InstanceKey) → (key_eq a b ≡ true) ↔ (a ≡ b)
unfolding key_eq
key_eq_iff a b = ground (arith, text_eq_iff a.node b.node, text_eq_iff a.id b.id)

-- The last instance of the list with key `k`, and its place from `n` on.
abbrev pub find_key : InstanceKey → List ServiceInstance → Option ServiceInstance
find_key k [] = none
find_key k (i ∷ is) = elim (find_key k is) [
  | some j ↦ some j
  | none ↦ if key_eq (key i) k then some i else none
]

abbrev pub place_of : InstanceKey → ℕ → List ServiceInstance → Option ℕ
place_of k n [] = none
place_of k n (i ∷ is) = elim (place_of k (suc n) is) [
  | some m ↦ some m
  | none ↦ if key_eq (key i) k then some n else none
]

abbrev pub or_else : Option ℕ → Option ℕ → Option ℕ
or_else none b = b
or_else (some a) b = some a

pub get-places :
    (k : InstanceKey) (n : ℕ) (list : List ServiceInstance) (old : Places)
    → get k (places n list old) ≡ or_else (place_of k n list) (get k old)
unfolding get places
get-places k n [] old = refl
get-places k n (i ∷ is) old = ground (arith, get-places k (suc n) is ((key i, n) ∷ old))

pub get-delete :
    (k j : InstanceKey) (m : Places) → get j (delete k m) ≡ (if key_eq k j then none else get j m)
unfolding get delete
get-delete k j [] = ground arith
get-delete k j ((i, n) ∷ m) =
    ground (arith, key_eq_iff k j, key_eq_iff i k, key_eq_iff i j, get-delete k j m)

-- What stands at the place of a key is the instance that `find_key` finds.
abbrev pub at_place : Option ℕ → ℕ → List ServiceInstance → Option ServiceInstance
at_place none n list = none
at_place (some m) n list = get_elem? list (m - n)

place_of-le :
    (k : InstanceKey) (n : ℕ) (list : List ServiceInstance) (m : ℕ)
    → place_of k n list ≡ some m
    → n ≤ m
place_of-le k n [] m h = cc
place_of-le k n (i ∷ is) m h = ground (arith, place_of-le k (suc n) is m)

pub place_of-is_some :
    (k : InstanceKey) (n : ℕ) (list : List ServiceInstance)
    → is_some (place_of k n list) ≡ is_some (find_key k list)
place_of-is_some k n [] = refl
place_of-is_some k n (i ∷ is) = ground (arith, place_of-is_some k (suc n) is)

get_elem?-shift :
    (i : ServiceInstance) (is : List ServiceInstance) (n m : ℕ)
    → suc n ≤ m
    → get_elem? (i ∷ is) (m - n) ≡ get_elem? is (m - suc n)
get_elem?-shift i is n m h = let e : m - n ≡ suc (m - suc n) = omega arith in rw e

at_place_self :
    (i : ServiceInstance) (is : List ServiceInstance) (n : ℕ) → get_elem? (i ∷ is) (n - n) ≡ some i
at_place_self i is n = let e : n - n ≡ 0 = omega arith in rw e

pub at_place-find_key :
    (k : InstanceKey) (n : ℕ) (list : List ServiceInstance)
    → at_place (place_of k n list) n list ≡ find_key k list
at_place-find_key k n [] = refl
at_place-find_key k n (i ∷ is) = elim (Option-cases (place_of k (suc n) is)) [
  | inl e ↦ rw e (ground (arith, place_of-is_some k (suc n) is, e, at_place_self i is n))
  | inr (m, e) ↦ rw e (
      ground (
        arith,
        get_elem?-shift i is n m (place_of-le k (suc n) is m e),
        place_of-is_some k (suc n) is,
        at_place-find_key k (suc n) is,
        e,
      ))
]

-- No two instances of the list have one key.
abbrev pub DistinctKeys : List ServiceInstance → Type 0
DistinctKeys [] = Unit
DistinctKeys (i ∷ is) = All (λ j. key_eq (key i) (key j) ≡ false) is × DistinctKeys is

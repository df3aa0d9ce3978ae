-- ===== src/Discovery/Diff.antt =====
-- discovery/watch.go, diff: the event that leads from the consumer's last view to a new state.
-- `old` maps an instance key to its place in `prev`. The copies made by `clone` are values here.
pub mod Keys
pub mod Spec
use consulx.Prelude.{
  ℕ, zero, suc, ◌+◌, Bool, true, false, ◌&&◌, List, [], ◌∷◌, Option, some, none, Text, text_eq,
  if◌then◌else◌, get_elem?, keep, is_some,
}
use consulx.Discovery.Instance.{ServiceInstance}
use consulx.Discovery.Equal.{equal_instance}

pub record InstanceKey : Type 0 where
  pub node : Text
  pub id : Text

abbrev pub key : ServiceInstance → InstanceKey
key i = record { node = i.node.name; id = i.id }

unfoldable pub key_eq : InstanceKey → InstanceKey → Bool
key_eq a b = text_eq a.node b.node && text_eq a.id b.id

pub record Event : Type 0 where
  pub instances : List ServiceInstance
  pub added : List ServiceInstance
  pub removed : List ServiceInstance
  pub changed : List ServiceInstance

abbrev pub Places : Type 0
Places = List (InstanceKey × ℕ)

-- The map operations on `old`: a later `put` shadows an earlier one.
unfoldable pub get : InstanceKey → Places → Option ℕ
get k [] = none
get k ((j, n) ∷ m) = let rest = get k m in if key_eq j k then some n else rest

unfoldable pub delete : InstanceKey → Places → Places
delete k [] = []
delete k ((j, n) ∷ m) = let rest = delete k m in if key_eq j k then rest else (j, n) ∷ rest

-- The first loop, from place `n` on.
unfoldable pub places : ℕ → List ServiceInstance → Places → Places
places n [] old = old
places n (i ∷ is) old = places (suc n) is ((key i, n) ∷ old)

-- `!equalInstance(prev[n], i)`.
unfoldable pub differs : List ServiceInstance → ℕ → ServiceInstance → Bool
differs prev n i = elim (get_elem? prev n) [
  | none ↦ true
  | some p ↦ if equal_instance p i then false else true
]

pub record Scan : Type 0 where
  pub old : Places
  pub added : List ServiceInstance
  pub changed : List ServiceInstance

-- The loop over `cur`.
unfoldable pub scan : List ServiceInstance → Places → List ServiceInstance → Scan
scan prev old [] = record { old = old; added = []; changed = [] }
scan prev old (i ∷ cur) =
    let s = scan prev (delete (key i) old) cur in
    elim (get (key i) old) [
      | none ↦ record s { added = i ∷ s.added }
      | some n ↦ if differs prev n i then record s { changed = i ∷ s.changed } else s
    ]

unfoldable pub diff : List ServiceInstance → List ServiceInstance → Event
unfolding scan places delete get key_eq differs
diff prev cur =
    let s = scan prev (places zero prev []) cur in
    record {
      instances = cur;
      added = s.added;
      changed = s.changed;
      removed = keep (λ i. is_some (get (key i) s.old)) prev;
    }

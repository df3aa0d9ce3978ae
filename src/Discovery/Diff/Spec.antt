-- ===== src/Discovery/Diff/Spec.antt =====
-- The event of `diff`, described without the map and the loop.
use consulx.Prelude.{
  ℕ, zero, ◌-◌, Bool, true, false, not, List, [], ◌∷◌, Option, some, none, ◌≡◌, refl, ap,
  if◌then◌else◌, get_elem?, keep, is_some, arith, inl, inr, Option-cases,
}
use consulx.Prelude.Predicates.{All, All-map, All-of, All-In, In, keep_congr}
use consulx.Discovery.Instance.{ServiceInstance}
use consulx.Discovery.Equal.{equal_instance}
use consulx.Discovery.Diff.{
  InstanceKey, key, key_eq, Event, Places, get, delete, places, differs, scan, diff,
}
use consulx.Discovery.Diff.Keys.{
  key_eq_iff, find_key, place_of, get-places, get-delete, place_of-is_some, at_place-find_key,
  DistinctKeys,
}

scan-old :
    (k : InstanceKey) (prev : List ServiceInstance) (old : Places) (cur : List ServiceInstance)
    → get k (scan prev old cur).old ≡ (if is_some (find_key k cur) then none else get k old)
unfolding scan
scan-old k prev old [] = refl
scan-old k prev old (i ∷ cur) =
    ground (arith, scan-old k prev (delete (key i) old) cur, get-delete (key i) k old)

abbrev unknown_at : Places → ServiceInstance → Bool
unknown_at old i = not (is_some (get (key i) old))

abbrev changed_at : List ServiceInstance → Places → ServiceInstance → Bool
changed_at prev old i = elim (get (key i) old) [ none ↦ false | some n ↦ differs prev n i ]

-- Deleting the key of `i` is not seen at the instances with other keys.
other_keys :
    (old : Places) (i : ServiceInstance) (cur : List ServiceInstance)
    → All (λ j. key_eq (key i) (key j) ≡ false) cur
    → All (λ j. get (key j) (delete (key i) old) ≡ get (key j) old) cur
other_keys old i = All-map (λ j h. ground (arith, get-delete (key i) (key j) old, h))

scan-added :
    (prev : List ServiceInstance) (old : Places) (cur : List ServiceInstance)
    → DistinctKeys cur
    → (scan prev old cur).added ≡ keep (unknown_at old) cur
unfolding scan
scan-added prev old [] h = refl
scan-added prev old (i ∷ cur) h = ground (
  arith,
  scan-added prev (delete (key i) old) cur h.1,
  keep_congr (unknown_at (delete (key i) old)) (unknown_at old) cur
      (All-map (λ j e. ap (λ o. not (is_some o)) e) cur (other_keys old i cur h.0)),
)

scan-changed :
    (prev : List ServiceInstance) (old : Places) (cur : List ServiceInstance)
    → DistinctKeys cur
    → (scan prev old cur).changed ≡ keep (changed_at prev old) cur
unfolding scan
scan-changed prev old [] h = refl
scan-changed prev old (i ∷ cur) h = ground (
  arith,
  scan-changed prev (delete (key i) old) cur h.1,
  keep_congr (changed_at prev (delete (key i) old)) (changed_at prev old) cur (
      All-map (λ j e. ap (λ (o : Option ℕ). elim o [ none ↦ false | some n ↦ differs prev n j ]) e)
        cur (other_keys old i cur h.0)),
)

-- The instance is not in the list, under its key.
abbrev pub absent : List ServiceInstance → ServiceInstance → Bool
absent list i = not (is_some (find_key (key i) list))

-- The list holds other values under the key of the instance.
abbrev pub altered : List ServiceInstance → ServiceInstance → Bool
altered list i = elim (find_key (key i) list) [ none ↦ false | some p ↦ not (equal_instance p i) ]

unknown-absent :
    (prev : List ServiceInstance) (i : ServiceInstance)
    → unknown_at (places zero prev []) i ≡ absent prev i
unfolding get
unknown-absent prev i =
    ground (arith, get-places (key i) zero prev [], place_of-is_some (key i) zero prev)

changed-altered :
    (prev : List ServiceInstance) (i : ServiceInstance)
    → changed_at prev (places zero prev []) i ≡ altered prev i
unfolding get differs
changed-altered prev i = elim (Option-cases (place_of (key i) zero prev)) [
  | inl e ↦ ground (arith, get-places (key i) zero prev [], place_of-is_some (key i) zero prev, e)
  | inr (m, e) ↦
      let z : m - 0 ≡ m = omega arith in
      ground (
        arith,
        get-places (key i) zero prev [],
        e,
        ap (get_elem? prev) z,
        place_of-is_some (key i) zero prev,
        rw e at (at_place-find_key (key i) zero prev),
      )
]

present :
    (list : List ServiceInstance) (i : ServiceInstance)
    → In i list
    → is_some (find_key (key i) list) ≡ true
present [] i h = absurd h
present (j ∷ list) i (inl e) = ground (arith, key_eq_iff (key j) (key i))
present (j ∷ list) i (inr h) = ground (arith, present list i h)

gone-absent :
    (prev cur : List ServiceInstance) (i : ServiceInstance)
    → In i prev
    → is_some (get (key i) (scan prev (places zero prev []) cur).old) ≡ absent cur i
unfolding get
gone-absent prev cur i h = ground (
  arith,
  scan-old (key i) prev (places zero prev []) cur,
  get-places (key i) zero prev [],
  place_of-is_some (key i) zero prev,
  present prev i h,
)

-- What an event from `prev` to `cur` holds: the new instances, those whose values differ, and
-- those that went away, each in the order of its list.
unfoldable pub event_between : List ServiceInstance → List ServiceInstance → Event
event_between prev cur = record {
  instances = cur;
  added = keep (absent prev) cur;
  changed = keep (altered prev) cur;
  removed = keep (absent cur) prev;
}

-- Where no two instances of the new state have one key (node and ID), `diff prev cur` is the event
-- that holds the new state, the instances of it whose key the old one lacks, those whose values
-- differ from the old ones, and the old instances whose key the new state lacks.
pub diff-event_between :
    (prev cur : List ServiceInstance) → DistinctKeys cur → diff prev cur ≡ event_between prev cur
unfolding diff event_between
diff-event_between prev cur h = ground (
  arith,
  scan-added prev (places zero prev []) cur h,
  scan-changed prev (places zero prev []) cur h,
  keep_congr (unknown_at (places zero prev [])) (absent prev) cur
      (All-of (unknown-absent prev) cur),
  keep_congr (changed_at prev (places zero prev [])) (altered prev) cur
      (All-of (changed-altered prev) cur),
  keep_congr (λ i. is_some (get (key i) (scan prev (places zero prev []) cur).old)) (absent cur)
      prev (All-map (gone-absent prev cur) prev (All-In prev)),
)

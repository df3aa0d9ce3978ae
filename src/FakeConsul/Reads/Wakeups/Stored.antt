-- ===== src/FakeConsul/Reads/Wakeups/Stored.antt =====
-- internal/fakeconsul/fakeconsul.go: what the store and the catalogue hold after writes, and what a read of
-- the store says of a key.
use consulx.Prelude.{
  Bool, true, false, ◌||◌, List, [], ◌∷◌, map, Option, none, some, Text, text_eq, text_eq_iff, keep,
  is_empty, if◌then◌else◌, ◌≡◌, refl, sym, arith, ◌∙◌, Bool-cases, inl, inr,
}
use consulx.Prelude.Dict.{Dict, lookup, keys, lookup-insert, lookup-remove}
use consulx.Prelude.Sort.{sort, insert_sorted}
use consulx.Prelude.TextOrder.{text_leq}
use consulx.NetAddr.{has_prefix}
use consulx.Discovery.Instance.{ServiceEntry}
use consulx.FakeConsul.{Agent, Write, set_health, bump_index, put_kv, delete_kv, write, written}
use consulx.FakeConsul.Reads.{
  Read, pairs_found, keys_found, no_pairs, entries_found, service_found, no_service, client_left,
  waiting, matching, kv_answer,
}

-- Writes one after the other.
abbrev pub write_all : List Write → Agent → Agent
write_all [] a = a
write_all (w ∷ ws) a = write_all ws (write w a)

-- The value of a key after the writes, given the one before.
abbrev pub last_value : Text → List Write → Option Text → Option Text
last_value key [] v = v
last_value key (put_kv k x ∷ ws) v = last_value key ws (if text_eq k key then some x else v)
last_value key (delete_kv k ∷ ws) v = last_value key ws (if text_eq k key then none else v)
last_value key (set_health service es ∷ ws) v = last_value key ws v
last_value key (bump_index ∷ ws) v = last_value key ws v

-- The entries of a service after the writes.
abbrev pub last_health : Text → List Write → Option (List ServiceEntry) → Option (List ServiceEntry)
last_health name [] v = v
last_health name (set_health s es ∷ ws) v =
    last_health name ws (if text_eq s name then some es else v)
last_health name (put_kv k x ∷ ws) v = last_health name ws v
last_health name (delete_kv k ∷ ws) v = last_health name ws v
last_health name (bump_index ∷ ws) v = last_health name ws v

pub kv-write_all :
    (key : Text) (ws : List Write) (a : Agent)
    → lookup key (write_all ws a).kv ≡ last_value key ws (lookup key a.kv)
unfolding write written
kv-write_all key [] a = refl
kv-write_all key (put_kv k x ∷ ws) a =
    rw (← lookup-insert k key x a.kv) (kv-write_all key ws (write (put_kv k x) a))
kv-write_all key (delete_kv k ∷ ws) a =
    rw (← lookup-remove k key a.kv) (kv-write_all key ws (write (delete_kv k) a))
kv-write_all key (set_health s es ∷ ws) a = kv-write_all key ws (write (set_health s es) a)
kv-write_all key (bump_index ∷ ws) a = kv-write_all key ws (write bump_index a)

pub health-write_all :
    (name : Text) (ws : List Write) (a : Agent)
    → lookup name (write_all ws a).health ≡ last_health name ws (lookup name a.health)
unfolding write written
health-write_all name [] a = refl
health-write_all name (set_health s es ∷ ws) a =
    rw (← lookup-insert s name es a.health) (health-write_all name ws (write (set_health s es) a))
health-write_all name (put_kv k x ∷ ws) a = health-write_all name ws (write (put_kv k x) a)
health-write_all name (delete_kv k ∷ ws) a = health-write_all name ws (write (delete_kv k) a)
health-write_all name (bump_index ∷ ws) a = health-write_all name ws (write bump_index a)

-- The value that an answer gives for a key.
abbrev pub pair_value : Text → List (Text × Option Text) → Option Text
pair_value key [] = none
pair_value key ((k, v) ∷ ps) = let rest = pair_value key ps in if text_eq k key then v else rest

abbrev pub value_in : Text → Read → Option Text
value_in key (pairs_found i ps) = pair_value key ps
value_in key (keys_found i ks) = none
value_in key (no_pairs i) = none
value_in key (entries_found i es) = none
value_in key (service_found h r) = none
value_in key no_service = none
value_in key client_left = none
value_in key waiting = none

abbrev has_key : Text → List Text → Bool
has_key key [] = false
has_key key (k ∷ ks) = text_eq k key || has_key key ks

pair_value-map :
    (f : Text → Option Text) (key : Text) (ks : List Text)
    → pair_value key (map (λ k. (k, f k)) ks) ≡ (if has_key key ks then f key else none)
pair_value-map f key [] = refl
pair_value-map f key (k ∷ ks) = ground (arith, pair_value-map f key ks, text_eq_iff k key)

has_key-insert :
    (key k : Text) (ks : List Text)
    → has_key key (insert_sorted text_leq k ks) ≡ (text_eq k key || has_key key ks)
unfolding insert_sorted
has_key-insert key k [] = refl
has_key-insert key k (j ∷ ks) = ground (arith, has_key-insert key k ks)

has_key-sort : (key : Text) (ks : List Text) → has_key key (sort text_leq ks) ≡ has_key key ks
unfolding sort
has_key-sort key [] = refl
has_key-sort key (k ∷ ks) =
    ground (arith, has_key-insert key k (sort text_leq ks), has_key-sort key ks)

has_key-keep :
    (prefix key : Text) (ks : List Text)
    → has_prefix prefix key ≡ true
    → has_key key (keep (has_prefix prefix) ks) ≡ has_key key ks
has_key-keep prefix key [] h = refl
has_key-keep prefix key (k ∷ ks) h =
    ground (arith, h, has_key-keep prefix key ks h, text_eq_iff k key)

missing-lookup : (key : Text) (m : Dict Text) → has_key key (keys m) ≡ false → lookup key m ≡ none
unfolding lookup
missing-lookup key [] h = refl
missing-lookup key ((k, v) ∷ m) h = ground (arith, h, missing-lookup key m)

present-lookup :
    (key : Text) (m : Dict Text)
    → (if has_key key (keys m) then lookup key m else none) ≡ lookup key m
present-lookup key m = elim (Bool-cases (has_key key (keys m))) [
  | inl e ↦ rw e refl
  | inr e ↦ rw (e, missing-lookup key m e) refl
]

-- A read of the pairs under a prefix says of each key under it what the store holds.
pub value_in-kv_answer :
    (prefix key : Text) (a : Agent)
    → has_prefix prefix key ≡ true
    → value_in key (kv_answer prefix false a) ≡ lookup key a.kv
unfolding kv_answer matching
value_in-kv_answer prefix key a h = at_keys (sort text_leq (keep (has_prefix prefix) (keys a.kv))) (
    has_key-sort key (keep (has_prefix prefix) (keys a.kv)) ∙ has_key-keep prefix key (keys a.kv) h)
  where
    at_keys :
        (ks : List Text)
        → has_key key ks ≡ has_key key (keys a.kv)
        → value_in key (
            if is_empty ks
            then no_pairs a.index
            else pairs_found a.index (map (λ k. (k, lookup k a.kv)) ks))
          ≡ lookup key a.kv
    at_keys [] e = sym (missing-lookup key a.kv (sym e))
    at_keys (k ∷ ks) e =
        pair_value-map (λ j. lookup j a.kv) key (k ∷ ks) ∙ rw e (present-lookup key a.kv)

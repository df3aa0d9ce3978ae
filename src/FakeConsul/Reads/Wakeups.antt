-- ===== src/FakeConsul/Reads/Wakeups.antt =====
-- internal/fakeconsul/fakeconsul.go: a client that reads with the index of its last answer misses no write.
pub mod Stored
use consulx.Prelude.{
  ℕ, suc, ◌+◌, ◌≤◌, ◌<◌, Bool, true, false, List, [], ◌∷◌, Option, none, some, Text, text_eq,
  length, if◌then◌else◌, ◌==◌, ltb, ◌≡◌, refl, ◌∙◌, arith, keep, map, is_empty,
}
use consulx.Prelude.Dict.{lookup}
use consulx.NetAddr.{has_prefix}
use consulx.Discovery.Instance.{ServiceEntry}
use consulx.FakeConsul.{Agent, Write, set_health, bump_index, put_kv, delete_kv, write, written}
use consulx.FakeConsul.Reads.{
  Wake, later, Read, waiting, pairs_found, keys_found, no_pairs, entries_found, service_found,
  no_service, client_left, await, kv_answer, kv_read, health_answer, health_service, offered,
  entries_of, matching,
}
use consulx.FakeConsul.Reads.Wakeups.Stored.{
  write_all, last_value, last_health, kv-write_all, health-write_all, value_in-kv_answer, value_in,
}

counted :
    (w : Write) (a : Agent)
    → ((write w a).index ≡ suc a.index) × ((write w a).changes ≡ suc a.changes)
unfolding write written
counted (set_health service es) a = (refl, refl)
counted bump_index a = (refl, refl)
counted (put_kv key v) a = (refl, refl)
counted (delete_kv key) a = (refl, refl)

counted_all :
    (ws : List Write) (a : Agent)
    → ((write_all ws a).index ≡ a.index + length ws)
      × ((write_all ws a).changes ≡ a.changes + length ws)
counted_all [] a = (omega arith, omega arith)
counted_all (w ∷ ws) a =
    let rest = counted_all ws (write w a) in
    let one = counted w a in (omega (arith, rest.0, one.0), omega (arith, rest.1, one.1))

await-newer :
    (answer : Agent → Read) (want : ℕ) (b : Agent) (wakes : List Wake)
    → want < b.index
    → await answer want b wakes ≡ answer b
unfolding await
await-newer answer want b [] h = ground (arith, h)
await-newer answer want b (w ∷ ws) h = ground (arith, h)

-- A read that waits in `a`, and is answered from `b`.
record Served (read : ℕ → Agent → List Wake → Read) (answer : Agent → Read) (a b : Agent)
    (wakes : List Wake) : Type 0 where
  waits : read a.index a [] ≡ waiting
  woken : read a.index a (later b ∷ wakes) ≡ answer b
  arriving : read a.index b wakes ≡ answer b

await-Served :
    (answer : Agent → Read) (a b : Agent) (wakes : List Wake)
    → 1 ≤ a.index
    → a.index < b.index
    → a.changes < b.changes
    → Served (await answer) answer a b wakes
unfolding await
await-Served answer a b wakes h k n =
    let newer = await-newer answer a.index b wakes k in
    record { waits = ground (arith, h); woken = ground (arith, h, n, newer); arriving = newer }

-- The index of an answer, 0 if it has none.
abbrev pub index_of : Read → ℕ
index_of (pairs_found i ps) = i
index_of (keys_found i ks) = i
index_of (no_pairs i) = i
index_of (entries_found i es) = i
index_of (service_found h r) = 0
index_of no_service = 0
index_of client_left = 0
index_of waiting = 0

kv_answer-index : (prefix : Text) (a : Agent) → index_of (kv_answer prefix false a) ≡ a.index
unfolding kv_answer
kv_answer-index prefix a = at_keys (matching prefix a)
  where
    at_keys :
        (ks : List Text)
        → index_of (
            if is_empty ks
            then no_pairs a.index
            else pairs_found a.index (map (λ k. (k, lookup k a.kv)) ks))
          ≡ a.index
    at_keys [] = refl
    at_keys (k ∷ ks) = refl

-- A read of the store tells the value of the key, and the index.
abbrev pub Tells : Text → Option Text → ℕ → Read → Type 0
Tells key v i r = (value_in key r ≡ v) × (index_of r ≡ i)

-- What is promised of reads with an index from before the writes `ws`.
pub record NoneMissed (prefix key name : Text) (passing : Bool) (tags : List Text) (a : Agent)
    (ws : List Write) (wakes : List Wake) : Type 0 where
  pub kv_waits : kv_read prefix false a.index a [] ≡ waiting
  pub kv_woken :
      Tells key
        (last_value key ws (lookup key a.kv))
        (a.index + length ws)
        (kv_read prefix false a.index a (later (write_all ws a) ∷ wakes))
  pub kv_arriving :
      Tells key
        (last_value key ws (lookup key a.kv))
        (a.index + length ws)
        (kv_read prefix false a.index (write_all ws a) wakes)
  pub health_waits : health_service name passing tags a.index a [] ≡ waiting
  pub health_woken :
      health_service name passing tags a.index a (later (write_all ws a) ∷ wakes)
      ≡ entries_found
          (a.index + length ws)
          (keep (offered passing tags) (entries_of (last_health name ws (lookup name a.health))))
  pub health_arriving :
      health_service name passing tags a.index (write_all ws a) wakes
      ≡ entries_found
          (a.index + length ws)
          (keep (offered passing tags) (entries_of (last_health name ws (lookup name a.health))))

kv_answer-Tells :
    (prefix key : Text) (a : Agent) (ws : List Write)
    → has_prefix prefix key ≡ true
    → Tells key
        (last_value key ws (lookup key a.kv))
        (a.index + length ws)
        (kv_answer prefix false (write_all ws a))
kv_answer-Tells prefix key a ws h = (
  value_in-kv_answer prefix key (write_all ws a) h ∙ kv-write_all key ws a,
  kv_answer-index prefix (write_all ws a) ∙ (counted_all ws a).0,
)

health_answer-last :
    (name : Text) (passing : Bool) (tags : List Text) (a : Agent) (ws : List Write)
    → health_answer name passing tags (write_all ws a)
      ≡ entries_found
          (a.index + length ws)
          (keep (offered passing tags) (entries_of (last_health name ws (lookup name a.health))))
unfolding health_answer
health_answer-last name passing tags a ws =
    rw (health-write_all name ws a, (counted_all ws a).0) refl

-- A read of the store, or of a service's health, that carries an index waits while nothing is written.
-- Any number of writes, but for none, end the wait of one that was waiting, and one that comes after them
-- does not wait. The answer has the index before, raised by their number, and what the last of the
-- writes left: for a key under the prefix its value, or none if it was deleted, and for a service the
-- entries that were set last, of which those are left that the filters offer. The index before is at
-- least 1, as in a new agent.
pub write_all-NoneMissed :
    (prefix key name : Text) (passing : Bool) (tags : List Text) (a : Agent) (w : Write)
    (ws : List Write) (wakes : List Wake)
    → has_prefix prefix key ≡ true
    → 1 ≤ a.index
    → NoneMissed prefix key name passing tags a (w ∷ ws) wakes
unfolding kv_read health_service
write_all-NoneMissed prefix key name passing tags a w ws wakes under h =
    let b = write_all (w ∷ ws) a in
    let n = counted_all (w ∷ ws) a in
    let newer : a.index < b.index = omega (arith, n.0) in
    let closed : a.changes < b.changes = omega (arith, n.1) in
    let kv = await-Served (kv_answer prefix false) a b wakes h newer closed in
    let entries = await-Served (health_answer name passing tags) a b wakes h newer closed in
    let told = kv_answer-Tells prefix key a (w ∷ ws) under in
    let listed = health_answer-last name passing tags a (w ∷ ws) in
    record {
      kv_waits = kv.waits;
      kv_woken = rw kv.woken told;
      kv_arriving = rw kv.arriving told;
      health_waits = entries.waits;
      health_woken = entries.woken ∙ listed;
      health_arriving = entries.arriving ∙ listed;
    }

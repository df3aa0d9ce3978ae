-- ===== src/FakeConsul/Reads.antt =====
-- internal/fakeconsul/fakeconsul.go: the blocking reads. A request meets moments, in order, each with the
-- state of the agent then. A wait holds the channel `changed` of the state that it has read, so it goes on
-- through a moment at which that channel is not closed: `changes` counts the channels that were.
pub mod Wakeups
use consulx.Prelude.{
  ℕ, Bool, true, false, ◌&&◌, ◌||◌, not, List, [], ◌∷◌, map, Option, none, some, Text, codes,
  text_eq, if◌then◌else◌, is_empty, ltb, ◌==◌, keep,
}
use consulx.Prelude.Dict.{Dict, lookup, keys}
use consulx.Prelude.Sort.{sort}
use consulx.Prelude.TextOrder.{text_leq}
use consulx.NetAddr.{has_prefix}
use consulx.Discovery.Instance.{ServiceEntry}
use consulx.FakeConsul.{Agent, Registration}

pub data Wake : Type 0 where
  later : Agent → Wake
  deadline : Agent → Wake
  left : Wake  -- the client is gone

-- The answer to a read: with an index, with the hash of a service, or none yet.
pub data Read : Type 0 where
  pairs_found : ℕ → List (Text × Option Text) → Read
  keys_found : ℕ → List Text → Read
  no_pairs : ℕ → Read  -- 404
  entries_found : ℕ → List ServiceEntry → Read
  service_found : Text → Registration → Read
  no_service : Read  -- 404
  client_left waiting : Read

-- idx > want
abbrev pub is_newer : ℕ → Agent → Bool
is_newer want a = ltb want a.index

-- The loop of a read by index: `want` is 0 behind the deadline.
unfoldable pub await : (Agent → Read) → ℕ → Agent → List Wake → Read
await answer want a [] = if want == 0 || is_newer want a then answer a else waiting
await answer want a (w ∷ ws) =
    let next : Read = elim w [
      | later b ↦
          let asleep = await answer want a ws in
          let awake = await answer want b ws in if a.changes == b.changes then asleep else awake
      | deadline b ↦ await answer 0 b ws
      | left ↦ client_left
    ] in
    if want == 0 || is_newer want a then answer a else next

unfoldable pub matching : Text → Agent → List Text
matching prefix a = sort text_leq (keep (has_prefix prefix) (keys a.kv))

unfoldable pub kv_answer : Text → Bool → Agent → Read
kv_answer prefix only_keys a =
    let ks = matching prefix a in
    if is_empty ks
    then no_pairs a.index
    else if only_keys
    then keys_found a.index ks
    else pairs_found a.index (map (λ k. (k, lookup k a.kv)) ks)

unfoldable pub kv_read : Text → Bool → ℕ → Agent → List Wake → Read
unfolding await kv_answer
kv_read prefix only_keys = await (kv_answer prefix only_keys)

contains : Text → List Text → Bool
contains t [] = false
contains t (x ∷ xs) = text_eq x t || contains t xs

unfoldable pub has_tags : List Text → List Text → Bool
unfolding contains
has_tags have [] = true
has_tags have (t ∷ ts) = contains t have && has_tags have ts

unfoldable pub offered : Bool → List Text → ServiceEntry → Bool
offered passing tags e =
    (not passing || text_eq e.aggregated (codes "passing")) && has_tags e.service.tags tags

abbrev pub entries_of : Option (List ServiceEntry) → List ServiceEntry
entries_of none = []
entries_of (some es) = es

unfoldable pub health_answer : Text → Bool → List Text → Agent → Read
unfolding offered
health_answer name passing tags a =
    entries_found a.index (keep (offered passing tags) (entries_of (lookup name a.health)))

unfoldable pub health_service : Text → Bool → List Text → ℕ → Agent → List Wake → Read
unfolding await health_answer
health_service name passing tags = await (health_answer name passing tags)

module _ (hash : Registration → Text) where
  service_now : Text → Option Registration → Option Read
  service_now client none = some no_service
  service_now client (some r) =
      if is_empty client || not (text_eq client (hash r))
      then some (service_found (hash r) r)
      else none

  -- `getService`, which blocks while the client's hash is that of the service.
  unfoldable pub get_service : Text → Text → Agent → List Wake → Read
  unfolding service_now
  get_service id client a [] = elim (service_now client (lookup id a.services)) [
    | none ↦ waiting
    | some r ↦ r
  ]
  get_service id client a (w ∷ ws) =
      let next : Read = elim w [
        | later b ↦
            let asleep = get_service id client a ws in
            let awake = get_service id client b ws in
            if a.changes == b.changes then asleep else awake
        | deadline b ↦ get_service id [] b ws
        | left ↦ client_left
      ] in
      elim (service_now client (lookup id a.services)) [ none ↦ next | some r ↦ r ]

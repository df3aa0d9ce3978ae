-- ===== src/Tests/Configuring.antt =====
-- Key-value configuration on concrete trees.
use consulx.FakeConsul.{new_agent, put_kv}
use consulx.FakeConsul.Reads.Wakeups.{NoneMissed, write_all-NoneMissed}
use consulx.Prelude.{
  ℕ, ◌==◌, ltb, if◌then◌else◌, List, [], ◌∷◌, Option, none, some, Text, codes, text_eq, split, ◌≡◌,
  refl, true, arith,
}
use consulx.NetAddr.{has_prefix, has_suffix}
use consulx.KvConfig.{
  Config, key_value, Fields, no_fields, field, scalar, folder, get, put, merge, insert_at,
  trim_prefix, path_of, decode_pairs, decode,
}
use consulx.KvConfig.Paths.{find, last_pair, decode-find}
use consulx.KvConfig.Merging.{Distinct, says, over, find-merge}
use consulx.KvConfig.Watching.{Watcher, bound, loaded, build_value, reload}
use consulx.KvConfig.Watching.Current.{Reach, Step, Sound, Reach-Sound}

abbrev config0 : Config
config0 = record {
  name = codes "orders";
  profiles = [];
  prefix = codes "config";
  default_context = codes "application";
  profile_separator = codes ",";
  format = key_value;
  data_key = codes "data";
}

abbrev pairs0 : List (Text × Text)
pairs0 =
    (codes "c/db/host", codes "h1") ∷ (codes "c/db/", []) ∷ (codes "c/db/port", codes "5432") ∷ []

abbrev tree0 : Fields
tree0 =
    field (codes "db")
      (folder (
        field (codes "host") (scalar (codes "h1"))
          (field (codes "port") (scalar (codes "5432")) no_fields)))
      no_fields

pairs0-tree : decode (λ doc. none) config0 (codes "c/") pairs0 ≡ some tree0
unfolding decode decode_pairs path_of trim_prefix has_prefix has_suffix split text_eq insert_at get
    put
pairs0-tree = refl

decode-find_example :
    find (codes "db") (codes "port" ∷ []) tree0
    ≡ last_pair (codes "c/") pairs0 (codes "db") (codes "port" ∷ []) none
decode-find_example =
    decode-find (λ doc. none) config0 (codes "c/") pairs0 tree0 (codes "db") (codes "port" ∷ [])
      refl pairs0-tree

abbrev later0 : Fields
later0 =
    field (codes "db") (folder (field (codes "host") (scalar (codes "h2")) no_fields)) no_fields

find-merge_example :
    find (codes "db") (codes "port" ∷ []) (merge tree0 later0)
    ≡ over
        (says (codes "db") (codes "port" ∷ []) later0)
        (find (codes "db") (codes "port" ∷ []) tree0)
unfolding Distinct
find-merge_example = find-merge (codes "db") (codes "port" ∷ []) tree0 later0 (tt, (tt, tt, tt), tt)

-- A later folder overrides one setting and keeps the other.
merged-settings :
    (find (codes "db") (codes "port" ∷ []) (merge tree0 later0) ≡ some (codes "5432"))
    × (find (codes "db") (codes "host" ∷ []) (merge tree0 later0) ≡ some (codes "h2"))
unfolding find merge get put text_eq
merged-settings = (refl, refl)

abbrev limit : ℕ → Option Text
limit v = if ltb 10 v then some (codes "too large") else none

abbrev watcher0 : Watcher ℕ ℕ
watcher0 = record { current = 3; rejected = none; changes = none; errs = none }

abbrev watcher1 : Watcher ℕ ℕ
watcher1 = (reload ◌==◌ ◌==◌ watcher0 (build_value (λ tree. bound tree) limit (loaded 7))).0

watcher1-Reach : Reach (λ tree. bound tree) limit ◌==◌ ◌==◌ 3 watcher1
watcher1-Reach = Reach.next Reach.begin (Step.reloads watcher0 (loaded 7))

Reach-Sound_example : Sound (λ tree. bound tree) limit ◌==◌ ◌==◌ watcher1
Reach-Sound_example = Reach-Sound (λ tree. bound tree) limit ◌==◌ ◌==◌ watcher1-Reach refl

write_all-NoneMissed_example :
    NoneMissed
      (codes "config/")
      (codes "config/a")
      (codes "web")
      true
      []
      (new_agent (codes "1.22.0"))
      (put_kv (codes "config/a") (codes "1") ∷ [])
      []
unfolding new_agent has_prefix
write_all-NoneMissed_example =
    write_all-NoneMissed (codes "config/") (codes "config/a") (codes "web") true []
      (new_agent (codes "1.22.0")) (put_kv (codes "config/a") (codes "1")) [] [] refl (omega arith)

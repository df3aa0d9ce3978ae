-- ===== src/Config/Overlay/Laws.antt =====
-- config.go: what `overlay` makes of every field, and the grouping of layers.
use consulx.Prelude.{
  Bool, ◌||◌, List, [], ◌∷◌, Option, none, some, Text, map, ◌≡◌, refl, ◌∙◌, arith, text_eq,
  text_eq_iff, Bool-cases, inl, inr,
}
use mathlib.Core.Path.{subst}
use consulx.Prelude.Dict.{Dict, lookup, insert, NoRepeat, Absent, lookup-insert, lookup-Absent}
use consulx.Config.{Config}
use consulx.Config.Overlay.{
  text_zero, bool_zero, int_zero, endpoints_zero, set, set_slice, copy, merge_map, entries, overlay,
  overlay_consul, overlay_tls, overlay_service, overlay_health, overlay_retry, overlay_kv,
  overlay_lifecycle,
}
use consulx.Config.Overlay.Fields.{UpperWins, or_below, flag_fields}
use consulx.Config.Overlay.Layers.{MapsOk, overlay_assoc}

set_flag : (a b : Bool) → set a b ≡ (b || a)
unfolding set
set_flag a b = ground arith

map-flags :
    (a b : Config) (fs : List (Config → Bool))
    → map (λ f. set (f a) (f b)) fs ≡ map (λ f. f b || f a) fs
map-flags a b [] = refl
map-flags a b (f ∷ fs) = rw (set_flag (f a) (f b), map-flags a b fs) refl

set_slice-or_below : {A : Type 0} (a b : Option A) → set_slice a b ≡ or_below a b
unfolding set_slice
set_slice-or_below a none = refl
set_slice-or_below a (some x) = refl

lookup-copy :
    {V : Type 0} (k : Text) (src dst : Dict V)
    → NoRepeat src
    → lookup k (copy src dst) ≡ or_below (lookup k dst) (lookup k src)
unfolding copy lookup
lookup-copy k [] dst h = refl
lookup-copy k ((j, v) ∷ src) dst h = elim (Bool-cases (text_eq j k)) [
  | inl e ↦
      let absent : Absent k src = subst (λ t. Absent t src) ((text_eq_iff j k).0 e) h.0 in
      lookup-copy k src (insert j v dst) h.1
      ∙ rw (lookup-insert j k v dst, e, lookup-Absent k src absent) refl
  | inr e ↦ lookup-copy k src (insert j v dst) h.1 ∙ rw (lookup-insert j k v dst, e) refl
]

lookup-merge_map :
    {V : Type 0} (k : Text) (a b : Option (Dict V))
    → NoRepeat (entries b)
    → lookup k (entries (merge_map a b)) ≡ or_below (lookup k (entries a)) (lookup k (entries b))
unfolding merge_map lookup
lookup-merge_map k a none h = refl
lookup-merge_map k a (some b) h = lookup-copy k b (entries a) h

overlay-UpperWins : (a b : Config) → MapsOk b → UpperWins a b (overlay a b)
unfolding overlay overlay_consul overlay_tls overlay_service overlay_health overlay_retry
    overlay_lifecycle overlay_kv set
overlay-UpperWins a b h = record {
  texts = refl;
  flags = map-flags a b flag_fields;
  numbers = refl;
  ca_pem = set_slice-or_below a.consul.tls.ca_pem b.consul.tls.ca_pem;
  cert_pem = set_slice-or_below a.consul.tls.cert_pem b.consul.tls.cert_pem;
  key_pem = set_slice-or_below a.consul.tls.key_pem b.consul.tls.key_pem;
  ports = set_slice-or_below a.service.ports b.service.ports;
  tags = set_slice-or_below a.service.tags b.service.tags;
  weights = set_slice-or_below a.service.weights b.service.weights;
  profiles = set_slice-or_below a.kv.profiles b.kv.profiles;
  auto_register = set_slice-or_below a.lifecycle.auto_register b.lifecycle.auto_register;
  deregister_on_shutdown =
      set_slice-or_below a.lifecycle.deregister_on_shutdown b.lifecycle.deregister_on_shutdown;
  endpoints = refl;
  meta = λ k. lookup-merge_map k a.service.meta b.service.meta h.meta;
  tagged_addresses = λ k.
      lookup-merge_map k a.service.tagged_addresses b.service.tagged_addresses h.tagged_addresses;
  header = λ k. lookup-merge_map k a.health.header b.health.header h.header;
}

-- A layer over another configuration wins field by field: every text, flag, number, list, pointer and
-- the block of the endpoints is the layer's, and is the one below exactly when the layer has the zero
-- value (a flag is set when either sets it); the metadata, the tagged addresses and the headers are
-- merged key by key, and the layer's keys win. A layer over a layer over a base is the layer of both
-- over the base. No key stands twice in a map of the layer.
pub overlay_laws :
    (a b c : Config)
    → MapsOk b
    → (overlay (overlay a b) c ≡ overlay a (overlay b c)) × UpperWins a b (overlay a b)
overlay_laws a b c h = (overlay_assoc a b c h, overlay-UpperWins a b h)

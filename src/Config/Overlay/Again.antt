-- ===== src/Config/Overlay/Again.antt =====
-- config.go, `overlay`: a layer of nothing, and a layer that is there already.
use consulx.Prelude.{
  [], ◌∷◌, Option, none, some, Text, Bool-cases, ◌≡◌, refl, ap, ◌∙◌, inl, inr, arith, text_eq_iff,
}
use consulx.Prelude.Predicates.{All}
use consulx.Prelude.Dict.{Dict, insert, lookup, NoRepeat, Absent}
use consulx.Config.{Config}
use consulx.Config.Zero.{no_config}
use consulx.Config.Overlay.{
  HasZero, set, set_slice, copy, merge_map, entries, overlay, overlay_consul, overlay_tls,
  overlay_service, overlay_health, overlay_retry, overlay_kv, overlay_lifecycle,
}
use consulx.Config.Overlay.Layers.{MapsOk, overlay_assoc}

module _ {V : Type 0} where
  insert-same : (k : Text) (v : V) (m : Dict V) → lookup k m ≡ some v → insert k v m ≡ m
  unfolding insert lookup
  insert-same k v [] h = cc
  insert-same k v ((j, w) ∷ m) h = ground (arith, text_eq_iff j k, insert-same k v m)

  abbrev Found : Dict V → Text × V → Type 0
  Found m e = lookup e.0 m ≡ some e.1

  copy-Found : (b m : Dict V) → All (Found m) b → copy b m ≡ m
  unfolding copy
  copy-Found [] m h = refl
  copy-Found ((k, v) ∷ b) m h = rw (insert-same k v m h.0) (copy-Found b m h.1)

  Found-behind :
      (j : Text) (w : V) (b m : Dict V) → Absent j b → All (Found m) b → All (Found ((j, w) ∷ m)) b
  unfolding lookup
  Found-behind j w [] m a h = tt
  Found-behind j w ((k, v) ∷ b) m a h = (rw a.0 h.0, Found-behind j w b m a.1 h.1)

  All-Found : (m : Dict V) → NoRepeat m → All (Found m) m
  unfolding lookup
  All-Found [] h = tt
  All-Found ((k, v) ∷ m) h =
      (ground (arith, text_eq_iff k k), Found-behind k v m m h.0 (All-Found m h.1))

  pub merge_map_self : (m : Option (Dict V)) → NoRepeat (entries m) → merge_map m m ≡ m
  unfolding merge_map
  merge_map_self none h = refl
  merge_map_self (some m) h = ap some (copy-Found m m (All-Found m h))

pub set_self : {A : Type 0} ⦃z : HasZero A⦄ (v : A) → set v v ≡ v
unfolding set
set_self ⦃z⦄ v = elim (Bool-cases (z.is_zero v)) [ inl e ↦ rw e refl | inr e ↦ rw e refl ]

pub set_slice_self : {A : Type 0} (v : Option A) → set_slice v v ≡ v
unfolding set_slice
set_slice_self none = refl
set_slice_self (some v) = refl

overlay_self : (b : Config) → MapsOk b → overlay b b ≡ b
unfolding overlay overlay_consul overlay_tls overlay_service overlay_health overlay_retry overlay_kv
    overlay_lifecycle
overlay_self b h =
    rw
      (
        merge_map_self b.service.meta h.meta,
        merge_map_self b.service.tagged_addresses h.tagged_addresses,
        merge_map_self b.health.header h.header,
      )
      (simp (set_self, set_slice_self))

overlay-no_config : (a : Config) → overlay a no_config ≡ a
unfolding overlay overlay_consul overlay_tls overlay_service overlay_health overlay_retry overlay_kv
    overlay_lifecycle set set_slice merge_map
overlay-no_config a = refl

-- A layer that sets nothing changes nothing, and a layer that was put on once changes nothing more. No
-- key stands twice in a map of the layer.
pub overlay_again :
    (a b : Config) → MapsOk b → (overlay a no_config ≡ a) × (overlay (overlay a b) b ≡ overlay a b)
overlay_again a b h =
    (overlay-no_config a, overlay_assoc a b b h ∙ ap (overlay a) (overlay_self b h))

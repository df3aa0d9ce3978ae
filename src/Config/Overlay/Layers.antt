-- ===== src/Config/Overlay/Layers.antt =====
-- config.go: layers of configuration are a monoid under `overlay`.
use consulx.Prelude.{
  Bool, true, false, [], ◌∷◌, Option, none, some, Text, if◌then◌else◌, Bool-cases, ◌≡◌, refl, sym,
  ap, ◌∙◌, inl, inr, arith, text_eq, text_eq_iff,
}
use mathlib.Core.Path.{subst}
use consulx.Prelude.Dict.{Dict, insert, NoRepeat, Absent, insert-NoRepeat}
use consulx.Config.{Config, ServiceConfig, HealthConfig}
use consulx.Config.Overlay.{
  HasZero, set, set_slice, copy, merge_map, entries, overlay, overlay_consul, overlay_tls,
  overlay_service, overlay_health, overlay_retry, overlay_kv, overlay_lifecycle,
}

set_assoc : {A : Type 0} ⦃z : HasZero A⦄ (a b c : A) → set (set a b) c ≡ set a (set b c)
unfolding set
set_assoc ⦃z⦄ a b c = elim (Bool-cases (z.is_zero c)) [
  | inl e ↦ rw e refl
  | inr e ↦ rw e (rw e refl)
]

set_slice_assoc :
    {A : Type 0} (a b c : Option A) → set_slice (set_slice a b) c ≡ set_slice a (set_slice b c)
unfolding set_slice
set_slice_assoc a b none = refl
set_slice_assoc a b (some x) = refl

module _ {V : Type 0} where
  abbrev has : Text → Dict V → Bool
  has k [] = false
  has k ((j, v) ∷ m) = let rest = has k m in if text_eq j k then true else rest

  insert_twice : (k : Text) (v w : V) (m : Dict V) → insert k v (insert k w m) ≡ insert k v m
  unfolding insert
  insert_twice k v w [] = ground (arith, text_eq_iff k k)
  insert_twice k v w ((j, u) ∷ m) =
      ground (arith, text_eq_iff j k, text_eq_iff k k, insert_twice k v w m)

  insert-has : (k j : Text) (v : V) (m : Dict V) → has k m ≡ true → has k (insert j v m) ≡ true
  unfolding insert
  insert-has k j v [] h = cc
  insert-has k j v ((i, u) ∷ m) h =
      ground (arith, text_eq_iff i j, text_eq_iff i k, insert-has k j v m)

  has-insert : (k : Text) (v : V) (m : Dict V) → has k (insert k v m) ≡ true
  unfolding insert
  has-insert k v [] = ground (arith, text_eq_iff k k)
  has-insert k v ((i, u) ∷ m) = ground (arith, text_eq_iff i k, text_eq_iff k k, has-insert k v m)

  -- A key that is there keeps its place.
  insert-insert :
      (k j : Text) (v w : V) (m : Dict V)
      → has k m ≡ true
      → text_eq k j ≡ false
      → insert k v (insert j w m) ≡ insert j w (insert k v m)
  unfolding insert
  insert-insert k j v w [] h e = cc
  insert-insert k j v w ((i, u) ∷ m) h e = ground (
    arith,
    text_eq_iff i k,
    text_eq_iff i j,
    text_eq_iff k j,
    text_eq_iff k k,
    text_eq_iff j k,
    text_eq_iff j j,
    insert-insert k j v w m,
  )

  insert-copy :
      (k : Text) (v : V) (b m : Dict V)
      → has k m ≡ true
      → Absent k b
      → insert k v (copy b m) ≡ copy b (insert k v m)
  unfolding copy
  insert-copy k v [] m h e = refl
  insert-copy k v ((j, w) ∷ b) m h e =
      insert-copy k v b (insert j w m) (insert-has k j w m h) e.1
      ∙ ap (copy b) (insert-insert k j v w m h e.0)

  copy-insert :
      (k : Text) (v : V) (b m : Dict V) → NoRepeat b → copy (insert k v b) m ≡ insert k v (copy b m)
  unfolding copy insert
  copy-insert k v [] m h = refl
  copy-insert k v ((j, w) ∷ b) m h = elim (Bool-cases (text_eq j k)) [
    | inl e ↦ rw e (
        let same : j ≡ k = (text_eq_iff j k).0 e in
        let absent : Absent k b = subst (λ t. Absent t b) same h.0 in
        sym (
          ap (λ t. insert k v (copy b (insert t w m))) same
          ∙ (insert-copy k v b (insert k w m) (has-insert k w m) absent
              ∙ ap (copy b) (insert_twice k v w m))))
    | inr e ↦ rw e (copy-insert k v b (insert j w m) h.1)
  ]

  copy_assoc : (c b a : Dict V) → NoRepeat b → copy (copy c b) a ≡ copy c (copy b a)
  unfolding copy
  copy_assoc [] b a h = refl
  copy_assoc ((k, v) ∷ c) b a h =
      copy_assoc c (insert k v b) a (insert-NoRepeat k v b h) ∙ ap (copy c) (copy-insert k v b a h)

  merge_map_assoc :
      (a b c : Option (Dict V))
      → NoRepeat (entries b)
      → merge_map (merge_map a b) c ≡ merge_map a (merge_map b c)
  unfolding merge_map copy
  merge_map_assoc a b none h = refl
  merge_map_assoc a none (some c) h = ap some (sym (copy_assoc c [] (entries a) tt))
  merge_map_assoc a (some b) (some c) h = ap some (sym (copy_assoc c b (entries a) h))

-- No key stands twice in a map of the layer.
pub record MapsOk (c : Config) : Type 0 where
  pub meta : NoRepeat (entries c.service.meta)
  pub tagged_addresses : NoRepeat (entries c.service.tagged_addresses)
  pub header : NoRepeat (entries c.health.header)

overlay_service_assoc :
    (a b c : ServiceConfig)
    → NoRepeat (entries b.meta)
    → NoRepeat (entries b.tagged_addresses)
    → overlay_service (overlay_service a b) c ≡ overlay_service a (overlay_service b c)
unfolding overlay_service
overlay_service_assoc a b c meta tagged =
    rw
      (
        merge_map_assoc a.meta b.meta c.meta meta,
        merge_map_assoc a.tagged_addresses b.tagged_addresses c.tagged_addresses tagged,
      )
      (simp (set_assoc, set_slice_assoc))

overlay_health_assoc :
    (a b c : HealthConfig)
    → NoRepeat (entries b.header)
    → overlay_health (overlay_health a b) c ≡ overlay_health a (overlay_health b c)
unfolding overlay_health
overlay_health_assoc a b c header =
    rw (merge_map_assoc a.header b.header c.header header) (simp (set_assoc, set_slice_assoc))

pub overlay_assoc : (a b c : Config) → MapsOk b → overlay (overlay a b) c ≡ overlay a (overlay b c)
unfolding overlay overlay_consul overlay_tls overlay_retry overlay_lifecycle overlay_kv
overlay_assoc a b c h =
    rw
      (
        overlay_service_assoc a.service b.service c.service h.meta h.tagged_addresses,
        overlay_health_assoc a.health b.health c.health h.header,
      )
      (simp (set_assoc, set_slice_assoc))

-- ===== src/Config/Defaults/Kept.antt =====
-- config.go, `applyDefaults`: what a layer has set stays, and a second application changes nothing.
use consulx.Prelude.{
  Bool, false, Option, none, some, Text, text_eq, ℕ, ◌≡◌, refl, arith, [], ◌∷◌, Bool-cases, inl,
  inr, text_eq_iff,
}
use consulx.Prelude.Int.{ℤ, min_ℤ}
use consulx.Config.{Config, HealthConfig, HealthEndpoints, check_auto}
use consulx.Config.Overlay.{endpoints_zero, text_zero, int_zero, bool_zero}
use consulx.Config.Overlay.{
  set, set_slice, overlay, overlay_consul, overlay_tls, overlay_service, overlay_health,
  overlay_retry, overlay_kv, overlay_lifecycle,
}
use consulx.Config.Overlay.Layers.{MapsOk}
use consulx.Config.Overlay.Again.{merge_map_self, set_self, set_slice_self}
use consulx.Config.Defaults.{
  apply_defaults, consul_defaults, health_defaults, retry_defaults, lifecycle_defaults, filled,
  filled_int, filled_bool, cmp_or, endpoints_of, path_default, check_default, timeout_default,
  default_check_timeout,
}

filled_twice : (v d : Text) → filled (filled v d) d ≡ filled v d
filled_twice v d = ground arith

filled_int_twice : (v d : ℤ) → filled_int (filled_int v d) d ≡ filled_int v d
filled_int_twice v d = ground arith

filled_bool_twice : (v : Option Bool) (d : Bool) → filled_bool (filled_bool v d) d ≡ filled_bool v d
filled_bool_twice none d = refl
filled_bool_twice (some b) d = refl

endpoints_of_twice :
    (b : Bool) (e : HealthEndpoints) → endpoints_of b (endpoints_of b e) ≡ endpoints_of b e
unfolding endpoints_of
endpoints_of_twice b e = ground arith

path_default_twice :
    (b : Bool) (e : HealthEndpoints) (p : Text)
    → path_default b e (path_default b e p) ≡ path_default b e p
unfolding path_default cmp_or
path_default_twice b e p = ground arith

-- The type that "auto" becomes.
check_default_auto :
    (path : Text)
    → check_default (check_default check_auto path) path ≡ check_default check_auto path
unfolding check_default text_eq
check_default_auto [] = refl
check_default_auto (c ∷ cs) = refl

check_default-eq :
    (c : ℕ) (cs path : Text)
    → text_eq (c ∷ cs) check_auto ≡ false
    → check_default (c ∷ cs) path ≡ c ∷ cs
unfolding check_default
check_default-eq c cs path e = rw e refl

check_default_twice :
    (check path : Text) → check_default (check_default check path) path ≡ check_default check path
check_default_twice [] path = unfold check_default in check_default_auto path
check_default_twice (c ∷ cs) path = elim (Bool-cases (text_eq (c ∷ cs) check_auto)) [
  | inl e ↦ rw ((text_eq_iff (c ∷ cs) check_auto).0 e) (check_default_auto path)
  | inr e ↦ rw (check_default-eq c cs path e) (check_default-eq c cs path e)
]

timeout_default_twice : (t i : ℤ) → timeout_default (timeout_default t i) i ≡ timeout_default t i
unfolding timeout_default
timeout_default_twice t i = filled_int_twice t (min_ℤ default_check_timeout i)

health_defaults_twice : (h : HealthConfig) → health_defaults (health_defaults h) ≡ health_defaults h
unfolding health_defaults
health_defaults_twice h = simp (
  filled_int_twice, endpoints_of_twice, path_default_twice, check_default_twice,
  timeout_default_twice,
)

-- Applying the defaults twice is applying them once.
pub apply_defaults_twice : (c : Config) → apply_defaults (apply_defaults c) ≡ apply_defaults c
unfolding apply_defaults consul_defaults retry_defaults lifecycle_defaults
apply_defaults_twice c =
    rw (health_defaults_twice c.health) (simp (filled_twice, filled_int_twice, filled_bool_twice))

set-filled : (v d : Text) → set (filled v d) v ≡ filled v d
unfolding set
set-filled v d = ground arith

set-filled_int : (v d : ℤ) → set (filled_int v d) v ≡ filled_int v d
unfolding set
set-filled_int v d = ground arith

set_slice-filled_bool :
    (v : Option Bool) (d : Bool) → set_slice (filled_bool v d) v ≡ filled_bool v d
unfolding set_slice
set_slice-filled_bool none d = refl
set_slice-filled_bool (some b) d = refl

set-endpoints_of : (b : Bool) (e : HealthEndpoints) → set (endpoints_of b e) e ≡ endpoints_of b e
unfolding set endpoints_of
set-endpoints_of b e = ground arith

set-path_default :
    (b : Bool) (e : HealthEndpoints) (p : Text) → set (path_default b e p) p ≡ path_default b e p
unfolding set path_default
set-path_default b e p = ground arith

set-check_default :
    (check path : Text)
    → text_eq check check_auto ≡ false
    → set (check_default check path) check ≡ check_default check path
unfolding set
set-check_default [] path h = refl
set-check_default (c ∷ cs) path h = rw (check_default-eq c cs path h) refl

set-timeout_default : (t i : ℤ) → set (timeout_default t i) t ≡ timeout_default t i
unfolding timeout_default
set-timeout_default t i = set-filled_int t (min_ℤ default_check_timeout i)

-- The defaults override nothing that is set: the configuration put over its own defaults changes none of
-- them. The check type is not the literal "auto", which stands for another type; no key stands twice in
-- a map.
pub apply_defaults-overlay :
    (c : Config)
    → MapsOk c
    → text_eq c.health.check check_auto ≡ false
    → overlay (apply_defaults c) c ≡ apply_defaults c
unfolding overlay overlay_consul overlay_tls overlay_service overlay_health overlay_retry overlay_kv
    overlay_lifecycle apply_defaults consul_defaults health_defaults retry_defaults
    lifecycle_defaults
apply_defaults-overlay c h auto =
    rw
      (
        merge_map_self c.service.meta h.meta,
        merge_map_self c.service.tagged_addresses h.tagged_addresses,
        merge_map_self c.health.header h.header,
        set-check_default c.health.check
            (path_default c.health.enabled (endpoints_of c.health.enabled c.health.endpoints)
              c.health.check_path)
            auto,
      )
      (simp (
        set_self, set_slice_self, set-filled, set-filled_int, set_slice-filled_bool,
        set-endpoints_of, set-path_default, set-timeout_default,
      ))

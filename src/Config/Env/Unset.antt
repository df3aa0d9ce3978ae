-- ===== src/Config/Env/Unset.antt =====
-- env.go, `configFromLookup`: an environment without the variables is a layer of nothing.
use consulx.Prelude.{true, [], ◌∷◌, Option, none, some, Text, text_eq, ◌≡◌, refl, arith, split}
use consulx.Prelude.Predicates.{All}
use consulx.Prelude.Trim.{trim_space, trim_start, is_space}
use consulx.Prelude.Int.{ℤ}
use consulx.Config.Zero.{no_config}
use consulx.Prelude.Strconv.{parse_bool}
use consulx.Config.Env.{
  config_from_lookup, env_config, env_faults, env_consul, env_service, get, list_of, meta_of,
  duration_of, fault, split_list,
}

-- A variable that is absent, or that holds blanks only.
abbrev pub Unset : Option Text → Type 0
Unset none = Unit
Unset (some v) = All (λ c. is_space c ≡ true) v

trim_start_blank : (v : Text) → All (λ c. is_space c ≡ true) v → trim_start v ≡ []
unfolding trim_start
trim_start_blank [] h = refl
trim_start_blank (c ∷ cs) h = ground (arith, h.0, trim_start_blank cs h.1)

blank : (v : Option Text) → Unset v → (elim v [ none ↦ [] | some t ↦ trim_space t ]) ≡ []
unfolding trim_space
blank none h = refl
blank (some v) h = rw (trim_start_blank v h) refl

module _ (parse_duration : Text → Option ℤ) (find : Text → Option Text)
    (unset : (k : Text) → Unset (find k)) where
  get_unset : (k : Text) → get parse_duration find k ≡ []
  unfolding get
  get_unset k = blank (find k) (unset k)

  -- Where every variable is absent or blank, the environment sets no field and has no error.
  pub config_from_lookup_unset : config_from_lookup parse_duration find ≡ (no_config, [])
  unfolding config_from_lookup env_config env_consul env_service env_faults parse_bool list_of
      meta_of duration_of fault text_eq split_list split trim_space
  config_from_lookup_unset = simp get_unset

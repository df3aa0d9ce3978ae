-- ===== src/Client/Building/Faithful.antt =====
-- What `New` hands on says the same as the settings: the validation leaves nothing that the
-- constructors would read in another way.
use consulx.Prelude.{
  ◌≤◌, ℕ, ◌*◌, ◌/◌, ◌<◌, ◌^◌, Bool, false, [], ◌∷◌, ◌++◌, Option, none, some, Text, codes,
  if◌then◌else◌, any_of, ◌==◌, ◌≡◌, ◌⊎◌, inl, inr, refl, arith, text_eq,
}
use consulx.Prelude.Cut.{cut_char, Without}
use consulx.Prelude.Predicates.{In}
use consulx.Prelude.Int.{ℤ, pos, negsuc, pos_part, ◌≤ℤ◌}
use consulx.Config.{Config}
use consulx.Config.Options.{Settings}
use consulx.Config.Options.Layered.{Sound}
use consulx.Config.Validate.{kv_formats}
use consulx.Config.Validate.Sections.{IsAuth}
use consulx.Config.Validate.Sound.{IsValid}
use consulx.KvConfig.{Format, key_value, yaml, json}
use consulx.Client.Building.Effective.{effective_config-IsValid}
use consulx.Health.Registry.{new_registry}
use consulx.Client.Building.{
  api_config, credentials, checker_timeout, fifth, health_registry, loader_config, format_of,
  effective_config,
}

-- The header value that a pair of credentials stands for.
abbrev pub rejoined : Option (Text × Text) → Text
rejoined none = []
rejoined (some (user, pass)) = user ++ (b':' ∷ pass)

-- The user of a pair has no colon.
abbrev pub PlainUser : Option (Text × Text) → Type 0
PlainUser none = Unit
PlainUser (some (user, pass)) = Without b':' user

-- What the cut of a text at a colon says.
abbrev Split : Text → Option (Text × Text) → Type 0
Split t none = any_of (λ x. x == b':') t ≡ false
Split t (some (user, pass)) = (user ++ (b':' ∷ pass) ≡ t) × Without b':' user

cut_char-Split : (t : Text) → Split t (cut_char b':' t)
unfolding cut_char
cut_char-Split [] = refl
cut_char-Split (c ∷ cs) = at_rest (cut_char b':' cs) (cut_char-Split cs)
  where
    at_rest :
        (rest : Option (Text × Text))
        → Split cs rest
        → Split (c ∷ cs) (
            if c == b':'
            then some ([], cs)
            else elim rest [ none ↦ none | some (before, after) ↦ some (c ∷ before, after) ])
    at_rest none h = ground (arith, h)
    at_rest (some (user, pass)) h = ground (arith, h.0, h.1)

credentials-rejoined :
    (auth : Text)
    → IsAuth auth
    → (rejoined (credentials auth) ≡ auth) × PlainUser (credentials auth)
unfolding credentials
credentials-rejoined [] h = (refl, tt)
credentials-rejoined (c ∷ cs) (inl h) = absurd (cc)
credentials-rejoined (c ∷ cs) (inr h) = at_parts (cut_char b':' (c ∷ cs)) (cut_char-Split (c ∷ cs))
  where
    at_parts :
        (o : Option (Text × Text))
        → Split (c ∷ cs) o
        → (rejoined (elim o [ none ↦ some (c ∷ cs, []) | some parts ↦ some parts ]) ≡ (c ∷ cs))
          × PlainUser (elim o [ none ↦ some (c ∷ cs, []) | some parts ↦ some parts ])
    at_parts none k = absurd (cc)
    at_parts (some (user, pass)) k = k

-- The name of a format in the configuration; the first of two for key-value pairs is not given.
abbrev pub format_name : Format → Text
format_name key_value = codes "keyvalue"
format_name yaml = codes "yaml"
format_name json = codes "json"

format_of-name : (f : Text) → In f kv_formats → (f ≡ []) ⊎ (format_name (format_of f) ≡ f)
unfolding format_of text_eq
format_of-name f (inl e) = inl e
format_of-name f (inr (inl e)) = inr (rw e refl)
format_of-name f (inr (inr (inl e))) = inr (rw e refl)
format_of-name f (inr (inr (inr (inl e)))) = inr (rw e refl)
format_of-name f (inr (inr (inr (inr x)))) = elim x [ ]

-- Below 2^61 nanoseconds, which is 73 years, the product does not wrap.
checker_timeout-pos : (n : ℕ) → n < 2 ^ 61 → checker_timeout (pos n) ≡ pos (n * 4 / 5)
unfolding checker_timeout fifth
checker_timeout-pos n h = ground arith

-- What the parts of a client keep of the settings.
pub record Faithful (url_ok : Text → Bool) (auto_register : Bool) (s : Settings) : Type 0 where
  pub http_auth : rejoined (api_config s).http_auth ≡ s.cfg.consul.http_auth
  pub user : PlainUser (api_config s).http_auth
  pub format : (s.cfg.kv.format ≡ []) ⊎ (format_name (loader_config s.cfg).format ≡ s.cfg.kv.format)
  pub checkers :
      (1 ≤ (health_registry s).timeout)
      × ((health_registry s).timeout < pos_part s.cfg.health.timeout)
  pub shown : IsValid url_ok auto_register (effective_config s.cfg)

earlier :
    (t : ℤ)
    → pos 2 ≤ℤ t
    → pos_part t < 2 ^ 61
    → (1 ≤ (new_registry (pos_part (checker_timeout t))).timeout)
      × ((new_registry (pos_part (checker_timeout t))).timeout < pos_part t)
unfolding new_registry
earlier (pos n) two_on h = rw (checker_timeout-pos n h) (ground (arith, two_on))
earlier (negsuc n) two_on h = absurd (omega (arith, two_on))

-- Settings that newSettings hands out are passed on as they are: user and password joined again are the
-- value that was configured, and the user has no colon; the loader reads the format that was asked for
-- and does not fall back to another; a checker gets some time from the health registry, and less than
-- Consul's check has; and what EffectiveConfig shows passes the validation again. The timeout of Consul's
-- check is at least 2 nanoseconds, since 4/5 of one are none, for which the registry has its default, and
-- below 2^61, since the code multiplies it by 4.
pub settings-Faithful :
    (url_ok : Text → Bool) (chosen : Config) (s : Settings) (sound : Sound url_ok chosen s)
    → pos 2 ≤ℤ s.cfg.health.timeout
    → pos_part s.cfg.health.timeout < 2 ^ 61
    → Faithful url_ok sound.registers s
unfolding api_config loader_config health_registry
settings-Faithful url_ok chosen s sound enough short =
    let valid = sound.valid in
    let auth = credentials-rejoined s.cfg.consul.http_auth valid.consul.http_auth in
    record {
      http_auth = auth.0;
      user = auth.1;
      format = format_of-name s.cfg.kv.format valid.end.format;
      checkers = earlier s.cfg.health.timeout enough short;
      shown = effective_config-IsValid url_ok sound.registers s.cfg valid;
    }

-- ===== src/Config/Load.antt =====
-- file.go: a configuration file with the environment over it. `decode` is the strict YAML decoder.
use consulx.Prelude.{true, List, [], ◌∷◌, Option, none, some, Text, ◌≡◌, sym, ap, ◌∙◌, arith}
use consulx.Prelude.Int.{ℤ}
use consulx.Config.{Config}
use consulx.Config.Zero.{no_config}
use consulx.Config.Overlay.{
  overlay, overlay_consul, overlay_tls, overlay_health, overlay_lifecycle, set, bool_zero,
}
use consulx.Config.Env.{Fault, config_from_lookup}

-- What the decoder answers: the document is empty, it is a configuration, or it is none.
pub data Decoded : Type 0 where
  end_of_file : Decoded
  decoded : Config → Decoded
  malformed : Decoded

pub data Loaded : Type 0 where
  loaded : Config → Loaded
  unreadable bad_file : Loaded
  bad_variables : List (Text × Fault) → Loaded

unfoldable pub parse_config : (Text → Decoded) → Text → Option Config
parse_config decode content = elim (decode content) [
  | end_of_file ↦ some no_config
  | decoded c ↦ some c
  | malformed ↦ none
]

unfoldable pub over_file : Config × List (Text × Fault) → Config → Loaded
over_file (env, []) cfg = loaded (overlay cfg env)
over_file (env, f ∷ fs) cfg = bad_variables (f ∷ fs)

over_parsed : Config × List (Text × Fault) → Option Config → Loaded
unfolding over_file
over_parsed env none = bad_file
over_parsed env (some cfg) = over_file env cfg

from_content : (Text → Decoded) → Config × List (Text × Fault) → Option Text → Loaded
unfolding parse_config over_parsed
from_content decode env none = unreadable
from_content decode env (some content) = over_parsed env (parse_config decode content)

-- `LoadConfig` of a file with this content; `none` where it cannot be read.
unfoldable pub load_config :
    (Text → Decoded) → (Text → Option ℤ) → (Text → Option Text) → Option Text → Loaded
unfolding from_content
load_config decode parse_duration find content =
    from_content decode (config_from_lookup parse_duration find) content

over_file-on :
    (env : Config × List (Text × Fault)) (file c : Config)
    → over_file env file ≡ loaded c
    → file.health.enabled ≡ true
    → file.lifecycle.fail_fast ≡ true
    → file.consul.tls.insecure_skip_verify ≡ true
    → (c.health.enabled ≡ true)
      × (c.lifecycle.fail_fast ≡ true)
      × (c.consul.tls.insecure_skip_verify ≡ true)
unfolding over_file overlay overlay_consul overlay_tls overlay_health overlay_lifecycle set
over_file-on (env, []) file c h e f i = ground (arith, h, e, f, i)
over_file-on (env, v ∷ vs) file c h e f i = cc

-- What a file turns on no variable turns off: the health endpoints, failing fast, and skipping the
-- verification of the agent's certificate are on in every configuration that is loaded from a file that
-- has them on, whatever the environment holds.
pub load_config_on :
    (decode : Text → Decoded) (parse_duration : Text → Option ℤ) (find : Text → Option Text)
    (content : Text) (file c : Config)
    → parse_config decode content ≡ some file
    → load_config decode parse_duration find (some content) ≡ loaded c
    → file.health.enabled ≡ true
    → file.lifecycle.fail_fast ≡ true
    → file.consul.tls.insecure_skip_verify ≡ true
    → (c.health.enabled ≡ true)
      × (c.lifecycle.fail_fast ≡ true)
      × (c.consul.tls.insecure_skip_verify ≡ true)
unfolding load_config
load_config_on decode parse_duration find content file c p h e f i =
    let env = config_from_lookup parse_duration find in
    over_file-on env file c (sym (ap (over_parsed env) p) ∙ h) e f i

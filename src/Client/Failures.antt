-- ===== src/Client/Failures.antt =====
-- registration.go, opError, isStatus and isPermanent, and ttlStatus. An error is known by what
-- `errors.Is` and `errors.As` find in its chain: the sentinels, the outermost first, and the HTTP
-- status of the official client's `StatusError`.
pub mod Wrapping
use consulx.Prelude.{
  ℕ, Bool, true, false, ◌&&◌, ◌||◌, not, List, [], ◌∷◌, Option, none, some, Text, codes, ltb, leb,
  ◌==◌, if◌then◌else◌, any_of, is_some,
}
use consulx.Health.{Status, up, degraded, down, other}

pub data Sentinel : Type 0 where
  invalid_configuration unsupported_feature : Sentinel
  registration_failed deregistration_failed not_registered consul_unavailable : Sentinel

abbrev pub number : Sentinel → ℕ
number invalid_configuration = 0
number unsupported_feature = 1
number registration_failed = 2
number deregistration_failed = 3
number not_registered = 4
number consul_unavailable = 5

pub record Failure : Type 0 where
  pub chain : List Sentinel
  pub status : Option ℕ

-- `errors.Is`.
unfoldable pub is : Sentinel → List Sentinel → Bool
is s [] = false
is s (t ∷ ts) = let rest = is s ts in if number s == number t then true else rest

abbrev wrapped : Option Sentinel → List Sentinel → List Sentinel
wrapped none chain = chain
wrapped (some op) chain = op ∷ chain

unfoldable pub op_error : Option Sentinel → Failure → Failure
op_error op e = elim e.status [
  | some code ↦ record e { chain = wrapped op e.chain }
  | none ↦
      if is consul_unavailable e.chain
      then record e { chain = wrapped op e.chain }
      else record e { chain = wrapped op (consul_unavailable ∷ e.chain) }
]

abbrev pub is_status : Failure → ℕ → Bool
is_status e code = elim e.status [ none ↦ false | some c ↦ c == code ]

unfoldable pub permanent_status : Option ℕ → Bool
permanent_status none = false
permanent_status (some code) =
    leb 400 code && (ltb code 500 && (not (code == 408) && not (code == 429)))

unfoldable pub is_permanent : Failure → Bool
unfolding permanent_status
is_permanent e =
    if is invalid_configuration e.chain || is unsupported_feature e.chain
    then true
    else permanent_status e.status

-- The check status of Consul for a health status.
unfoldable pub ttl_status : Status → Text
ttl_status up = codes "passing"
ttl_status degraded = codes "warning"
ttl_status down = codes "critical"
ttl_status (other t) = codes "critical"

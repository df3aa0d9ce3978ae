-- ===== src/Compat.antt =====
-- internal/compat/compat.go: agent versions, and the features that need one. A version string is a
-- list of bytes, and its blanks are those of ASCII.
pub mod Order
pub mod RoundTrip
use consulx.Prelude.Trim.{is_space, trim_start, trim_end}
use consulx.Prelude.{
  ℕ, suc, ◌+◌, ◌*◌, ◌-◌, ◌^◌, Bool, true, false, ◌&&◌, ◌||◌, not, List, [], ◌∷◌, ◌++◌, Option, none,
  some, Text, codes, text_eq, split, leb, ltb, ◌==◌, if◌then◌else◌, is_empty,
}

pub record Version : Type 0 where
  pub major : ℕ
  pub minor : ℕ
  pub patch : ℕ
  pub pre : Text
  pub enterprise : Bool
  pub raw : Text

abbrev pub unknown : Version
unknown = record { major = 0; minor = 0; patch = 0; pre = []; enterprise = false; raw = [] }

abbrev pub is_unknown : Version → Bool
is_unknown v = is_empty v.raw

unfoldable pub at_least : Version → ℕ → ℕ → ℕ → Bool
at_least v major minor patch =
    if not (v.major == major)
    then ltb major v.major
    else if not (v.minor == minor)
    then ltb minor v.minor
    else leb patch v.patch

trim_prefix_v : Text → Text
trim_prefix_v [] = []
trim_prefix_v (c ∷ cs) = if c == b'v' then cs else c ∷ cs

-- What stands before and after the first `sep`: `IndexByte` and the two slices.
unfoldable pub cut : ℕ → Text → Text × Text
cut sep [] = ([], [])
cut sep (c ∷ cs) = let rest = cut sep cs in if c == sep then ([], cs) else (c ∷ rest.0, rest.1)

abbrev pub is_digit : ℕ → Bool
is_digit c = leb 48 c && leb c 57

-- `strconv.Atoi` on text without a sign: `Parse` has cut the text at the first of either sign. A
-- value that does not fit in an `int` is an error.
unfoldable pub digits : ℕ → Text → Option ℕ
digits v [] = some v
digits v (c ∷ cs) =
    let rest = digits (v * 10 + (c - 48)) cs in
    if is_digit c && ltb (v * 10 + (c - 48)) (2 ^ 63) then rest else none

unfoldable pub atoi : Text → Option ℕ
unfolding digits
atoi t = if is_empty t then none else digits 0 t

starts_with : Text → Text → Bool
starts_with [] t = true
starts_with (c ∷ cs) [] = false
starts_with (c ∷ cs) (d ∷ ds) = c == d && starts_with cs ds

unfoldable pub is_enterprise : Text → Bool
unfolding starts_with
is_enterprise build = text_eq build (codes "ent") || starts_with (codes "ent.") build

-- The version of three numbers, if all are numbers.
version_of : Text → Text → Text → Option ℕ → Option ℕ → Option ℕ → Option Version
version_of raw pre build (some x) (some y) (some z) = some (record {
  major = x;
  minor = y;
  patch = z;
  pre = pre;
  enterprise = is_enterprise build;
  raw = raw;
})
version_of raw pre build (some x) (some y) none = none
version_of raw pre build (some x) none z = none
version_of raw pre build none y z = none

numbered : Text → Text → Text → List Text → Option Version
unfolding version_of
numbered raw pre build (x ∷ y ∷ z ∷ []) = version_of raw pre build (atoi x) (atoi y) (atoi z)
numbered raw pre build (x ∷ y ∷ z ∷ w ∷ ws) = none
numbered raw pre build (x ∷ y ∷ []) = none
numbered raw pre build (x ∷ []) = none
numbered raw pre build [] = none

-- `none` is the error "malformed version".
unfoldable pub parse : Text → Option Version
unfolding trim_start trim_end trim_prefix_v cut split atoi numbered
parse s =
    let raw = trim_end (trim_start s) in
    let (core, build) = cut b'+' (trim_prefix_v raw) in
    let (numbers, pre) = cut b'-' core in numbered raw pre build (split b'.' numbers)

pub data Feature : Type 0 where
  multi_port ipv6_address namespaces partitions ai_service : Feature
  unlisted : ℕ → Feature  -- any other value of the type

pub record Requirement : Type 0 where
  pub major : ℕ
  pub minor : ℕ
  pub patch : ℕ
  pub enterprise : Bool
  pub never : Bool

abbrev pub requirements : Feature → Option Requirement
requirements multi_port =
    some (record { major = 1; minor = 22; patch = 0; enterprise = false; never = false })
requirements ipv6_address =
    some (record { major = 1; minor = 22; patch = 0; enterprise = false; never = false })
requirements namespaces =
    some (record { major = 0; minor = 0; patch = 0; enterprise = true; never = false })
requirements partitions =
    some (record { major = 0; minor = 0; patch = 0; enterprise = true; never = false })
requirements ai_service =
    some (record { major = 0; minor = 0; patch = 0; enterprise = false; never = true })
requirements (unlisted n) = none

unfoldable pub supports : Version → Feature → Bool
unfolding at_least
supports v f = elim (requirements f) [
  | none ↦ false
  | some r ↦
      if r.never
      then false
      else if is_unknown v
      then true
      else if r.enterprise
      then v.enterprise
      else at_least v r.major r.minor r.patch
]

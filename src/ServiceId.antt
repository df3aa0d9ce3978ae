-- ===== src/ServiceId.antt =====
-- internal/serviceid/serviceid.go: generated instance IDs. A string is the list of its code points;
-- every ID is ASCII, where these are its bytes.
pub mod Clean
pub mod Suffix
use consulx.Prelude.{
  ℕ, suc, ◌+◌, ◌-◌, Bool, true, false, ◌&&◌, ◌||◌, not, List, [], ◌∷◌, ◌++◌, Text, leb, ltb, ◌==◌,
  if◌then◌else◌, length, take, is_empty,
}
use consulx.Prelude.Decimal.{itoa}

abbrev pub max_len : ℕ
max_len = 128

-- `unicode.ToLower` up to what `Sanitize` tells apart: the two letters outside ASCII whose lower case
-- is in ASCII (U+0130 and U+212A) are written out, and every other letter outside ASCII stays there.
unfoldable pub to_lower : ℕ → ℕ
to_lower r =
    if leb b'A' r && leb r b'Z'
    then r + 32
    else if r == 304
    then b'i'
    else if r == 8490
    then b'k'
    else r

-- The test `ok` of the loop, less the dash, which goes with the characters that are replaced.
abbrev pub is_kept : ℕ → Bool
is_kept r = leb b'a' r && leb r b'z' || (leb b'0' r && leb r b'9' || (r == b'.' || r == b'_'))

-- The loop: `written` is whether the builder holds something, and `dash` the local variable. It gives
-- what is written from here on.
unfoldable pub replaced : Bool → Bool → Text → Text
replaced written dash [] = []
replaced written dash (r ∷ rs) =
    let c = to_lower r in
    let skipping = replaced written true rs in
    let keeping = replaced true false rs in
    let dashed = replaced true true rs in
    if is_kept c then c ∷ keeping else if not dash && written then b'-' ∷ dashed else skipping

abbrev pub trim_left : Text → Text
trim_left [] = []
trim_left (c ∷ cs) = let rest = trim_left cs in if c == b'-' then rest else c ∷ cs

-- `strings.TrimRight(s, "-")`.
unfoldable pub trim_right : Text → Text
trim_right [] = []
trim_right (c ∷ cs) =
    let rest = trim_right cs in if is_empty rest && c == b'-' then [] else c ∷ rest

unfoldable pub sanitize : Text → Text
unfolding replaced trim_right to_lower
sanitize s =
    let out = trim_right (trim_left (replaced false false s)) in
    if ltb max_len (length out) then trim_right (take max_len out) else out

-- `base[:room]` where `room` is not negative: a suffix is at most 127 bytes long.
unfoldable pub with_suffix : Text → Text → Text
unfolding trim_right
with_suffix base suffix =
    let room = max_len - (length suffix + 1) in
    let base' = if ltb room (length base) then trim_right (take room base) else base in
    if is_empty base' then suffix else base' ++ (b'-' ∷ suffix)

-- `random_suffix` is the value of `randomSuffix`, eight hexadecimal digits.
unfoldable pub hostname_port : Text → Text → Text → ℕ → Text
unfolding with_suffix sanitize itoa
hostname_port random_suffix name hostname port =
    let host = sanitize hostname in
    let host' = if is_empty host then random_suffix else host in
    with_suffix (sanitize (name ++ (b'-' ∷ host'))) (itoa port)

-- `uuid` is the value of `uuid`, 36 hexadecimal digits and dashes.
unfoldable pub random : Text → Text → Text
unfolding with_suffix sanitize
random uuid name = with_suffix (sanitize name) uuid

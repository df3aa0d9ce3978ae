-- ===== src/Compat/RoundTrip.antt =====
-- `Parse` reads back the version that a version string was written for.
use consulx.Prelude.{split}
use consulx.Prelude.{
  ℕ, ◌+◌, ◌*◌, ◌-◌, ◌^◌, ◌<◌, false, [], ◌∷◌, ◌++◌, some, Text, ◌==◌, ◌≡◌, refl, arith, append-nil,
  append_assoc,
}
use consulx.Prelude.Predicates.{All, All-append, All-map}
use consulx.Prelude.Decimal.{
  itoa, IsDigit, itoa-digits, itoa-is_empty, value_from, value_from-le, value-itoa,
}
use consulx.Prelude.Trim.{is_space, NoBlank, trim_start_lem, trim_end_lem}
use consulx.Compat.{trim_prefix_v, cut, digits, atoi, is_enterprise, parse}

abbrev pub Without : ℕ → Text → Type 0
Without sep s = All (λ c. (c == sep) ≡ false) s

trim_prefix_v_lem :
    (d rest : Text) → All IsDigit d → trim_prefix_v (d ++ (b'.' ∷ rest)) ≡ d ++ (b'.' ∷ rest)
unfolding trim_prefix_v
trim_prefix_v_lem [] rest h = refl
trim_prefix_v_lem (c ∷ cs) rest h = ground (arith, h.0)

cut_at : (sep : ℕ) (s rest : Text) → Without sep s → cut sep (s ++ (sep ∷ rest)) ≡ (s, rest)
unfolding cut
cut_at sep [] rest h = ground arith
cut_at sep (c ∷ cs) rest h = ground (arith, h.0, cut_at sep cs rest h.1)

cut_none : (sep : ℕ) (s : Text) → Without sep s → cut sep s ≡ (s, [])
unfolding cut
cut_none sep [] h = refl
cut_none sep (c ∷ cs) h = ground (arith, h.0, cut_none sep cs h.1)

split_at : (d rest : Text) → All IsDigit d → split b'.' (d ++ (b'.' ∷ rest)) ≡ d ∷ split b'.' rest
unfolding split
split_at [] rest h = refl
split_at (c ∷ cs) rest h = ground (arith, h.0, split_at cs rest h.1)

split_none : (d : Text) → All IsDigit d → split b'.' d ≡ d ∷ []
unfolding split
split_none [] h = refl
split_none (c ∷ cs) h = ground (arith, h.0, split_none cs h.1)

digits_value :
    (v : ℕ) (d : Text)
    → All IsDigit d
    → value_from v d < 2 ^ 63
    → digits v d ≡ some (value_from v d)
unfolding digits value_from
digits_value v [] h lt = refl
digits_value v (c ∷ cs) h lt =
    ground
      (arith, h.0, value_from-le (v * 10 + (c - 48)) cs, digits_value (v * 10 + (c - 48)) cs h.1 lt)

atoi-itoa : (n : ℕ) → n < 2 ^ 63 → atoi (itoa n) ≡ some n
unfolding atoi
atoi-itoa n lt =
    let read = digits_value 0 (itoa n) (itoa-digits n) (rw (value-itoa n) lt) in
    rw (itoa-is_empty n, read, value-itoa n) refl

-- `major.minor.patch`.
unfoldable pub dotted : ℕ → ℕ → ℕ → Text
dotted a b c = itoa a ++ (b'.' ∷ (itoa b ++ (b'.' ∷ itoa c)))

-- A label with its mark, if there is one.
unfoldable pub label : ℕ → Text → Text
label mark [] = []
label mark (c ∷ cs) = mark ∷ (c ∷ cs)

-- A version string.
unfoldable pub written : ℕ → ℕ → ℕ → Text → Text → Text
written a b c pre build = dotted a b c ++ (label b'-' pre ++ label b'+' build)

dotted-All :
    (P : ℕ → Type 0) → ((c : ℕ) → IsDigit c → P c) → P b'.' → (a b c : ℕ) → All P (dotted a b c)
unfolding dotted
dotted-All P f dot a b c =
    let number : (n : ℕ) → All P (itoa n) = λ n. All-map f (itoa n) (itoa-digits n) in
    All-append P (itoa a) (b'.' ∷ (itoa b ++ (b'.' ∷ itoa c))) (number a)
      (dot, All-append P (itoa b) (b'.' ∷ itoa c) (number b) (dot, number c))

label-All : (P : ℕ → Type 0) (mark : ℕ) (s : Text) → P mark → All P s → All P (label mark s)
unfolding label
label-All P mark [] m h = tt
label-All P mark (c ∷ cs) m h = (m, h)

cut-label : (sep : ℕ) (s rest : Text) → Without sep s → cut sep (s ++ label sep rest) ≡ (s, rest)
unfolding label
cut-label sep s [] h = rw append-nil (cut_none sep s h)
cut-label sep s (c ∷ cs) h = cut_at sep s (c ∷ cs) h

split-dotted : (a b c : ℕ) → split b'.' (dotted a b c) ≡ itoa a ∷ itoa b ∷ itoa c ∷ []
unfolding dotted
split-dotted a b c =
    rw
      (
        split_at (itoa a) (itoa b ++ (b'.' ∷ itoa c)) (itoa-digits a),
        split_at (itoa b) (itoa c) (itoa-digits b),
        split_none (itoa c) (itoa-digits c),
      )
      refl

trim_prefix_v-written :
    (a b c : ℕ) (pre build : Text)
    → trim_prefix_v (written a b c pre build) ≡ written a b c pre build
unfolding written dotted
trim_prefix_v-written a b c pre build =
    rw (append_assoc (itoa a)) (trim_prefix_v_lem (itoa a) _ (itoa-digits a))

-- `Parse` of a version string answers its three numbers, its pre-release label, whether its build
-- label is that of Enterprise, and the string. The numbers fit in an `int`, no label has a blank, and
-- the pre-release label has no '+'.
pub parse-written :
    (a b c : ℕ) (pre build : Text)
    → a < 2 ^ 63
    → b < 2 ^ 63
    → c < 2 ^ 63
    → NoBlank pre
    → NoBlank build
    → Without b'+' pre
    → parse (written a b c pre build)
      ≡ some (record {
        major = a;
        minor = b;
        patch = c;
        pre = pre;
        enterprise = is_enterprise build;
        raw = written a b c pre build;
      })
unfolding parse
parse-written a b c pre build ha hb hc np nb wp =
    let whole : NoBlank (written a b c pre build) =
      unfold written in
      All-append (λ c. is_space c ≡ false) (dotted a b c) (label b'-' pre ++ label b'+' build)
        (dotted-All (λ c. is_space c ≡ false) (λ c h. ground arith) refl a b c)
        (All-append (λ c. is_space c ≡ false) (label b'-' pre) (label b'+' build)
          (label-All (λ c. is_space c ≡ false) b'-' pre refl np)
          (label-All (λ c. is_space c ≡ false) b'+' build refl nb)) in
    let plus : Without b'+' (dotted a b c ++ label b'-' pre) =
      All-append (λ c. (c == b'+') ≡ false) (dotted a b c) (label b'-' pre)
        (dotted-All (λ c. (c == b'+') ≡ false) (λ c h. ground arith) refl a b c)
        (label-All (λ c. (c == b'+') ≡ false) b'-' pre refl wp) in
    let minus : Without b'-' (dotted a b c) =
      dotted-All (λ c. (c == b'-') ≡ false) (λ c h. ground arith) refl a b c in
    let core : cut b'+' (written a b c pre build) ≡ (dotted a b c ++ label b'-' pre, build) =
      unfold written in
      rw (← (append_assoc (dotted a b c)))
        (cut-label b'+' (dotted a b c ++ label b'-' pre) build plus) in
    rw
      (
        trim_start_lem (written a b c pre build) whole,
        trim_end_lem (written a b c pre build) whole,
        trim_prefix_v-written a b c pre build,
        core,
        cut-label b'-' (dotted a b c) pre minus,
        split-dotted a b c,
        atoi-itoa a ha,
        atoi-itoa b hb,
        atoi-itoa c hc,
      )
      refl

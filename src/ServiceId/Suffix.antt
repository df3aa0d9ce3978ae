-- ===== src/ServiceId/Suffix.antt =====
-- The port at the end of an ID tells instances apart.
use consulx.Prelude.{
  ℕ, zero, suc, ◌+◌, ◌*◌, ◌/◌, ◌%◌, ◌-◌, ◌≤◌, ◌<◌, Bool, true, false, ◌||◌, [], ◌∷◌, ◌++◌, Text,
  ◌≡◌, refl, arith, max, ltb, ◌==◌, if◌then◌else◌, length, take, is_empty, length-take,
  length-append, Bool-cases, inl, inr, ap, sym, ◌∙◌,
}
use consulx.Prelude.Predicates.{All}
use consulx.Prelude.Decimal.{
  itoa, itoa_from, IsDigit, itoa-digits, itoa-is_empty, value_from, value-itoa,
}
use consulx.ServiceId.{max_len, trim_right, sanitize, with_suffix, hostname_port}
use consulx.ServiceId.Clean.{
  IsId, joined, joined-trim_right, joined-take, length-trim_right, trim_right_twice, sanitize-IsId,
}

-- What stands behind the last dash; the whole text where there is none.
has_dash : Text → Bool
has_dash [] = false
has_dash (c ∷ cs) = c == b'-' || has_dash cs

after_dash : Text → Text
after_dash [] = []
after_dash (c ∷ cs) =
    let rest = after_dash cs in if has_dash cs then rest else if c == b'-' then cs else c ∷ cs

digits-has_dash : (s : Text) → All IsDigit s → has_dash s ≡ false
unfolding has_dash
digits-has_dash [] h = refl
digits-has_dash (c ∷ cs) h = ground (arith, h.0, digits-has_dash cs h.1)

digits-after_dash : (s : Text) → All IsDigit s → after_dash s ≡ s
unfolding after_dash
digits-after_dash [] h = refl
digits-after_dash (c ∷ cs) h = ground (arith, h.0, digits-has_dash cs h.1)

append-has_dash : (xs s : Text) → has_dash (xs ++ (b'-' ∷ s)) ≡ true
unfolding has_dash
append-has_dash [] s = refl
append-has_dash (x ∷ xs) s = ground (arith, append-has_dash xs s)

append-after_dash : (xs s : Text) → All IsDigit s → after_dash (xs ++ (b'-' ∷ s)) ≡ s
unfolding after_dash
append-after_dash [] s h = ground (arith, digits-has_dash s h)
append-after_dash (x ∷ xs) s h = rw (append-has_dash xs s) (append-after_dash xs s h)

with_suffix-after_dash : (base s : Text) → All IsDigit s → after_dash (with_suffix base s) ≡ s
unfolding with_suffix
with_suffix-after_dash base s h =
    let room = max_len - (length s + 1) in
    joined_with (if ltb room (length base) then trim_right (take room base) else base)
  where
    joined_with :
        (base' : Text) → after_dash (if is_empty base' then s else base' ++ (b'-' ∷ s)) ≡ s
    joined_with [] = digits-after_dash s h
    joined_with (c ∷ cs) = append-after_dash (c ∷ cs) s h

-- Two IDs that end in different ports are different, whatever the names and the hosts: an ID that is
-- cut to the maximal length keeps its whole port.
pub hostname_port-port :
    (random random' name name' host host' : Text) (port port' : ℕ)
    → hostname_port random name host port ≡ hostname_port random' name' host' port'
    → port ≡ port'
unfolding hostname_port
hostname_port-port random random' name name' host host' port port' h =
    sym (value-itoa port)
    ∙ ap (λ s. value_from 0 s)
        (sym (with_suffix-after_dash _ (itoa port) (itoa-digits port))
          ∙ ap after_dash h
          ∙ with_suffix-after_dash _ (itoa port') (itoa-digits port'))
    ∙ value-itoa port'

digits-joined : (dash : Bool) (s : Text) → All IsDigit s → joined dash s ≡ true
unfolding joined
digits-joined dash [] h = refl
digits-joined dash (c ∷ cs) h = ground (arith, h.0, digits-joined false cs h.1)

-- A clean base that does not end in a dash takes a dash and digits.
append-joined :
    (dash : Bool) (c : ℕ) (cs s : Text)
    → joined dash (c ∷ cs) ≡ true
    → trim_right (c ∷ cs) ≡ c ∷ cs
    → joined true s ≡ true
    → joined dash ((c ∷ cs) ++ (b'-' ∷ s)) ≡ true
unfolding joined trim_right
append-joined dash c [] s h e k = ground (arith, h, e, k)
append-joined dash c (d ∷ ds) s h e k =
    ground (arith, h, e, append-joined true d ds s, append-joined false d ds s)

digits-trim_right : (s : Text) → All IsDigit s → trim_right s ≡ s
unfolding trim_right
digits-trim_right [] h = refl
digits-trim_right (c ∷ cs) h = ground (arith, h.0, digits-trim_right cs h.1)

append-trim_right :
    (xs : Text) (c : ℕ) (cs : Text)
    → trim_right (c ∷ cs) ≡ c ∷ cs
    → trim_right (xs ++ (c ∷ cs)) ≡ xs ++ (c ∷ cs)
unfolding trim_right
append-trim_right [] c cs e = e
append-trim_right (x ∷ []) c cs e = rw e refl
append-trim_right (x ∷ (y ∷ ys)) c cs e = rw (append-trim_right (y ∷ ys) c cs e) refl

dash_digits-trim_right :
    (s : Text) → is_empty s ≡ false → All IsDigit s → trim_right (b'-' ∷ s) ≡ b'-' ∷ s
dash_digits-trim_right [] n h = cc
dash_digits-trim_right (c ∷ cs) n h =
    append-trim_right (b'-' ∷ []) c cs (digits-trim_right (c ∷ cs) h)

-- The base of an ID: clean, with no dash at its end.
joined_with-IsId :
    (base s : Text)
    → joined true base ≡ true
    → trim_right base ≡ base
    → length base + (length s + 1) ≤ max_len
    → is_empty s ≡ false
    → All IsDigit s
    → IsId (if is_empty base then s else base ++ (b'-' ∷ s))
joined_with-IsId [] s j e le n h = record {
  clean = digits-joined true s h;
  ends = digits-trim_right s h;
  short = omega arith;
}
joined_with-IsId (c ∷ cs) s j e le n h = record {
  clean = append-joined true c cs s j e (digits-joined true s h);
  ends = append-trim_right (c ∷ cs) b'-' s (dash_digits-trim_right s n h);
  short = omega (arith, length-append (c ∷ cs) (b'-' ∷ s));
}

with_suffix-IsId :
    (base s : Text)
    → IsId base
    → length s < max_len
    → is_empty s ≡ false
    → All IsDigit s
    → IsId (with_suffix base s)
unfolding with_suffix
with_suffix-IsId base s b lt n h =
    let room = max_len - (length s + 1) in
    elim (Bool-cases (ltb room (length base))) [
      | inl t ↦ rw t (
          joined_with-IsId (trim_right (take room base)) s
            (joined-trim_right true (take room base) (joined-take room true base b.clean))
            (trim_right_twice (take room base))
            (omega (arith, length-take room base, length-trim_right (take room base))) n h)
      | inr t ↦ rw t (joined_with-IsId base s b.clean b.ends (ground (arith, t, lt)) n h)
    ]

-- 10 ^ k.
power : ℕ → ℕ
power zero = 1
power (suc k) = 10 * power k

length-itoa_from :
    (k f n : ℕ) (acc : Text) → n < power k → length (itoa_from f n acc) ≤ max 1 k + length acc
unfolding itoa_from power
length-itoa_from k zero n acc h = omega arith
length-itoa_from zero (suc f) n acc h = ground (arith, h)
length-itoa_from (suc k) (suc f) n acc h =
    ground (arith, h, length-itoa_from k f (n / 10) ((48 + n % 10) ∷ acc))

-- The ID of an instance is clean, whatever the name and the host. The port is one of TCP.
pub hostname_port-IsId :
    (random name host : Text) (port : ℕ) → port < 65536 → IsId (hostname_port random name host port)
unfolding hostname_port itoa power
hostname_port-IsId random name host port h =
    with_suffix-IsId _ (itoa port)
      (sanitize-IsId
        (name ++ (b'-' ∷ (if is_empty (sanitize host) then random else sanitize host))))
      (omega (arith, length-itoa_from 5 (suc port) port [] (omega arith))) (itoa-is_empty port)
      (itoa-digits port)

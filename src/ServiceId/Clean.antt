-- ===== src/ServiceId/Clean.antt =====
-- Every ID that `Sanitize` makes is clean, and a clean ID is left as it is.
use consulx.Prelude.{
  ℕ, zero, suc, ◌≤◌, Bool, true, false, ◌&&◌, ◌||◌, not, [], ◌∷◌, Text, ◌≡◌, refl, arith, ltb, ◌==◌,
  if◌then◌else◌, length, take, length-take, Bool-cases, &&-true, inl, inr, ap,
}
use consulx.ServiceId.{max_len, to_lower, is_kept, replaced, trim_left, trim_right, sanitize}

-- Characters of `[a-z0-9._-]` with no two dashes in a row; with `dash`, none at the start.
unfoldable pub joined : Bool → Text → Bool
joined dash [] = true
joined dash (c ∷ cs) =
    let after_dash = joined true cs in
    let after_other = joined false cs in
    if c == b'-' then not dash && after_dash else is_kept c && after_other

-- A clean ID has only the characters `[a-z0-9._-]`, no dash at its ends and no two dashes in a row,
-- and is at most 128 bytes long.
pub record IsId (s : Text) : Type 0 where
  pub clean : joined true s ≡ true
  pub ends : trim_right s ≡ s
  pub short : length s ≤ max_len

replaced-joined :
    (written dash : Bool) (rs : Text)
    → joined (dash || not written) (replaced written dash rs) ≡ true
unfolding replaced joined
replaced-joined written dash [] = refl
replaced-joined written dash (r ∷ rs) = ground (
  arith,
  replaced-joined written true rs,
  replaced-joined true false rs,
  replaced-joined true true rs,
)

trim_left-joined : (s : Text) → joined true s ≡ true → trim_left s ≡ s
unfolding joined
trim_left-joined [] h = refl
trim_left-joined (c ∷ cs) h = ground (arith, h)

pub joined-trim_right :
    (dash : Bool) (s : Text) → joined dash s ≡ true → joined dash (trim_right s) ≡ true
unfolding joined trim_right
joined-trim_right dash [] h = refl
joined-trim_right dash (c ∷ cs) h =
    ground (arith, h, joined-trim_right true cs, joined-trim_right false cs)

pub joined-take :
    (n : ℕ) (dash : Bool) (s : Text) → joined dash s ≡ true → joined dash (take n s) ≡ true
unfolding joined
joined-take zero dash s h = refl
joined-take (suc n) dash [] h = refl
joined-take (suc n) dash (c ∷ cs) h =
    ground (arith, h, joined-take n true cs, joined-take n false cs)

pub length-trim_right : (s : Text) → length (trim_right s) ≤ length s
unfolding trim_right
length-trim_right [] = omega arith
length-trim_right (c ∷ cs) = ground (arith, length-trim_right cs)

pub trim_right_twice : (s : Text) → trim_right (trim_right s) ≡ trim_right s
unfolding trim_right
trim_right_twice [] = refl
trim_right_twice (c ∷ cs) = ground (arith, trim_right_twice cs)

cut-IsId :
    (out : Text)
    → joined true out ≡ true
    → trim_right out ≡ out
    → IsId (if ltb max_len (length out) then trim_right (take max_len out) else out)
cut-IsId out h e = elim (Bool-cases (ltb max_len (length out))) [
  | inl t ↦ rw t (record {
    clean = joined-trim_right true (take max_len out) (joined-take max_len true out h);
    ends = trim_right_twice (take max_len out);
    short = omega (arith, length-take max_len out, length-trim_right (take max_len out));
  })
  | inr t ↦ rw t (record { clean = h; ends = e; short = ground (arith, t) })
]

-- Every output of `Sanitize` is a clean ID.
pub sanitize-IsId : (s : Text) → IsId (sanitize s)
unfolding sanitize
sanitize-IsId s =
    let clean : joined true (replaced false false s) ≡ true = replaced-joined false false s in
    cut-IsId (trim_right (trim_left (replaced false false s)))
      (rw (trim_left-joined (replaced false false s) clean)
        (joined-trim_right true (replaced false false s) clean))
      (trim_right_twice (trim_left (replaced false false s)))

||-true : (b : Bool) → (b || true) ≡ true
||-true true = refl
||-true false = refl

to_lower_same : (c : ℕ) → (is_kept c || c == b'-') ≡ true → to_lower c ≡ c
unfolding to_lower
to_lower_same c h = ground (arith, h)

dash_same : (c : ℕ) → (c == b'-') ≡ true → (is_kept c ≡ false) × (c ≡ b'-')
dash_same c h = ground (arith, h)

may_write :
    (written dash j : Bool)
    → (not (dash || not written) && j) ≡ true
    → ((not dash && written) ≡ true) × (j ≡ true)
may_write true false true h = (refl, refl)
may_write true false false h = cc
may_write true true j h = cc
may_write false true j h = cc
may_write false false j h = cc

replaced_fixed :
    (written dash : Bool) (s : Text)
    → joined (dash || not written) s ≡ true
    → replaced written dash s ≡ s
unfolding replaced joined
replaced_fixed written dash [] h = refl
replaced_fixed written dash (r ∷ rs) h = elim (Bool-cases (r == b'-')) [
  | inl e ↦
      let same : to_lower r ≡ r = to_lower_same r (at_dash e) in
      let (kept, is) = dash_same r e in
      let (write, later) = may_write written dash (joined true rs) (rw e at h) in
      rw (same, kept, write) (cc (is, replaced_fixed true true rs later))
  | inr e ↦
      let (kept, later) = &&-true (is_kept r) (joined false rs) (rw e at h) in
      let same : to_lower r ≡ r = to_lower_same r (at_kept kept) in
      rw (same, kept) (ap (λ t. r ∷ t) (replaced_fixed true false rs later))
]
  where
    at_dash : (r == b'-') ≡ true → (is_kept r || r == b'-') ≡ true
    at_dash e = rw e (||-true (is_kept r))

    at_kept : is_kept r ≡ true → (is_kept r || r == b'-') ≡ true
    at_kept k = rw k refl

ltb_le : (a b : ℕ) → b ≤ a → ltb a b ≡ false
ltb_le a b h = ground arith

-- `Sanitize` leaves a clean ID as it is; so sanitising twice is sanitising once.
pub sanitize_clean : (s : Text) → IsId s → sanitize s ≡ s
unfolding sanitize
sanitize_clean s h =
    rw
      (
        replaced_fixed false false s h.clean,
        trim_left-joined s h.clean,
        h.ends,
        ltb_le max_len (length s) h.short,
      )
      refl

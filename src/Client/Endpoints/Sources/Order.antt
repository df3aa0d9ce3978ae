-- ===== src/Client/Endpoints/Sources/Order.antt =====
-- resolver.go, FirstAddress: which resolver's address it returns, and which errors.
use consulx.Prelude.{
  Bool, true, false, List, [], ◌∷◌, ◌++◌, map, Option, none, some, Text, if◌then◌else◌, ◌≡◌, refl,
  sym, ap, ◌∙◌, Bool-cases, inl, inr, append-nil, append_assoc,
}
use consulx.Prelude.Predicates.{All}
use consulx.Client.Endpoints.{Source}
use consulx.Client.Endpoints.Sources.{
  FirstAnswer, found, not_found, ctx_error, first_from, first_address,
}

-- The answer is no address, or one that is refused.
abbrev pub Refused : (Text → Bool) → Option Text → Type 0
Refused ok none = Unit
Refused ok (some addr) = ok addr ≡ false

-- The resolver is of no use, and the loop goes on behind it.
abbrev pub Passed : (Text → Bool) → Source → Type 0
Passed ok s = Refused ok s.answer × (s.over ≡ false)

-- What the answer says of the resolvers: the address is that of the first that is of use; without one,
-- the errors are those of all resolvers, in order; and the context ends the search only behind a
-- resolver of no use.
abbrev pub IsOutcome : (Text → Bool) → List Source → FirstAnswer → Type 0
IsOutcome ok whole (found addr) =
    (before : List Source) × (s : Source) × (after : List Source) × (whole ≡ before ++ (s ∷ after))
    × All (Passed ok) before
    × (s.answer ≡ some addr)
    × (ok addr ≡ true)
IsOutcome ok whole (not_found errs) = (errs ≡ map (λ s. s.answer) whole) × All (Passed ok) whole
IsOutcome ok whole ctx_error =
    (before : List Source) × (s : Source) × (after : List Source) × (whole ≡ before ++ (s ∷ after))
    × All (Passed ok) before
    × Refused ok s.answer
    × (s.over ≡ true)

All-snoc :
    (P : Source → Type 0) (xs : List Source) (x : Source) → All P xs → P x → All P (xs ++ (x ∷ []))
All-snoc P [] x h p = (p, tt)
All-snoc P (y ∷ xs) x h p = (h.0, All-snoc P xs x h.1 p)

map-snoc :
    (xs : List Source) (x : Source)
    → map (λ s. s.answer) (xs ++ (x ∷ [])) ≡ map (λ s. s.answer) xs ++ (x.answer ∷ [])
map-snoc [] x = refl
map-snoc (y ∷ xs) x = ap (λ t. y.answer ∷ t) (map-snoc xs x)

module _ (ok : Text → Bool) (whole : List Source) where
  -- What is left to show behind a resolver of no use.
  after_refusal :
      (done : List Source) (s : Source) (ss : List Source) (rest : FirstAnswer)
      → whole ≡ done ++ (s ∷ ss)
      → All (Passed ok) done
      → Refused ok s.answer
      → ((s.over ≡ false) → IsOutcome ok whole rest)
      → IsOutcome ok whole (if s.over then ctx_error else rest)
  after_refusal done s ss rest e h r k = elim (Bool-cases s.over) [
    | inl over ↦ rw over (done, s, ss, e, h, r, over)
    | inr goes ↦ rw goes (k goes)
  ]

  at_answer :
      (done : List Source) (s : Source) (ss : List Source) (rest : FirstAnswer) (o : Option Text)
      → s.answer ≡ o
      → whole ≡ done ++ (s ∷ ss)
      → All (Passed ok) done
      → (Passed ok s → IsOutcome ok whole rest)
      → IsOutcome ok whole (elim o [
        | none ↦ if s.over then ctx_error else rest
        | some addr ↦ if ok addr then found addr else (if s.over then ctx_error else rest)
      ])
  at_answer done s ss rest none a e h k =
      let r : Refused ok s.answer = rw a tt in
      after_refusal done s ss rest e h r (λ goes. k (r, goes))
  at_answer done s ss rest (some addr) a e h k = elim (Bool-cases (ok addr)) [
    | inl good ↦ rw good (done, s, ss, e, h, a, good)
    | inr bad ↦ rw bad (
        let r : Refused ok s.answer = rw a bad in
        after_refusal done s ss rest e h r (λ goes. k (r, goes)))
  ]

  first_from-IsOutcome :
      (done ss : List Source)
      → whole ≡ done ++ ss
      → All (Passed ok) done
      → IsOutcome ok whole (first_from ok (map (λ s. s.answer) done) ss)
  unfolding first_from
  first_from-IsOutcome done [] e h =
      let same : whole ≡ done = e ∙ append-nil done in
      (ap (map (λ s. s.answer)) (sym same), rw same h)
  first_from-IsOutcome done (s ∷ ss) e h =
      at_answer done s ss (first_from ok (map (λ s. s.answer) done ++ (s.answer ∷ [])) ss) s.answer
        refl e h
        (λ p. rw (← map-snoc done s) (
          first_from-IsOutcome (done ++ (s ∷ [])) ss (e ∙ sym (append_assoc done (s ∷ []) ss))
            (All-snoc (Passed ok) done s h p)))

-- FirstAddress returns the address of the first resolver that gives a usable one, every resolver before it
-- having failed or given an address that is refused; if it finds none, it returns the error of every
-- resolver, in their order; and an ended context stops it only behind a resolver of no use.
pub first_address-IsOutcome :
    (ok : Text → Bool) (ss : List Source) → IsOutcome ok ss (first_address ok ss)
unfolding first_address
first_address-IsOutcome ok ss = first_from-IsOutcome ok ss [] ss refl tt

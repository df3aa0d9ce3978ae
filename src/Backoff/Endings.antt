-- ===== src/Backoff/Endings.antt =====
-- The retry loop ends, and its answer is the one of its last attempt.
use native.Mathlib.Nat.{add-zero}
use mathlib.Core.Path.{subst}
use consulx.Prelude.{
  ℕ, zero, suc, ◌+◌, ◌≤◌, ◌<◌, Bool, true, ◌&&◌, Option, none, some, ltb, ◌≡◌, refl, arith, ◌⊎◌,
  inl, inr, Option-cases, Bool-cases,
}
use consulx.Backoff.{
  Policy, next_delay, Outcome, ok, failed, permanent, World, Ending, succeeded, returned, aborted,
  Run, retry_from, retry, attempt, after_failure, notify,
}

module _ {E : Type 0} (delayer : ℕ → Option ℕ) (max_elapsed : ℕ) (w : World E) where
  -- The elapsed time allows no wait of `d` after the attempt.
  abbrev pub exceeds : ℕ → ℕ → Bool
  exceeds n d = ltb 0 max_elapsed && ltb max_elapsed (w.since_start n + d)

  abbrev pub GivesUp : ℕ → Option ℕ → Type 0
  GivesUp n none = Unit
  GivesUp n (some d) = exceeds n d ≡ true

  -- Why the loop ends at attempt `n`.
  abbrev pub Because : ℕ → Ending E → Type 0
  Because n succeeded = w.outcome n ≡ ok
  Because n (returned e) =
      (w.outcome n ≡ permanent e) ⊎ ((w.outcome n ≡ failed e) × GivesUp n (delayer n))
  Because n (aborted e) =
      (w.outcome n ≡ failed e) × ((w.ctx_over n ≡ true) ⊎ (w.interrupted n ≡ true))

  -- A run from attempt `n` that ends by attempt `n + f`.
  abbrev Ends : ℕ → ℕ → Option (Run E) → Type 0
  Ends f n none = ⊥
  Ends f n (some r) = (n ≤ r.attempts) × (r.attempts ≤ n + f) × Because r.attempts r.ending

  notify-Ends :
      (f n k d : ℕ) (o : Option (Run E))
      → Ends f n o
      → Ends f n (notify delayer max_elapsed w k d o)
  unfolding notify
  notify-Ends f n k d none h = h
  notify-Ends f n k d (some r) h = h

  after_failure-Ends :
      (f n : ℕ) (e : E) (rest : Option (Run E))
      → w.outcome n ≡ failed e
      → (delayer n ≡ none) ⊎ Ends f n rest
      → Ends f n (after_failure delayer max_elapsed w n e rest)
  unfolding after_failure
  after_failure-Ends f n e rest o h = elim (Bool-cases (w.ctx_over n)) [
    | inl c ↦ rw c (omega arith, omega arith, (o, inl c))
    | inr c ↦ rw c (elim (Option-cases (delayer n)) [
      | inl g ↦ rw g (omega arith, omega arith, inr (o, rw g tt))
      | inr (d, g) ↦ rw g (elim (Bool-cases (exceeds n d)) [
        | inl x ↦ rw x (omega arith, omega arith, inr (o, rw g x))
        | inr x ↦ rw x (
            notify-Ends f n n d _ (elim (Bool-cases (w.interrupted n)) [
              | inl i ↦ rw i (omega arith, omega arith, (o, inr i))
              | inr i ↦ rw i (elim h [ inl k ↦ cc (k, g) | inr k ↦ k ])
            ]))
      ])
    ])
  ]

  attempt-Ends :
      (f n : ℕ) (x : Outcome E) (rest : Option (Run E))
      → w.outcome n ≡ x
      → (delayer n ≡ none) ⊎ Ends f n rest
      → Ends f n (attempt delayer max_elapsed w n x rest)
  unfolding attempt
  attempt-Ends f n ok rest o h = (omega arith, omega arith, o)
  attempt-Ends f n (permanent e) rest o h = (omega arith, omega arith, inl o)
  attempt-Ends f n (failed e) rest o h = after_failure-Ends f n e rest o h

  later : (f n : ℕ) (o : Option (Run E)) → Ends f (suc n) o → Ends (suc f) n o
  later f n none h = h
  later f n (some r) h = (omega arith, omega arith, h.2)

  retry_from-Ends :
      (f n : ℕ) → delayer (n + f) ≡ none → Ends f n (retry_from delayer max_elapsed w (suc f) n)
  unfolding retry_from
  retry_from-Ends zero n h =
      attempt-Ends zero n (w.outcome n) none refl (inl (rw (add-zero n) at h))
  retry_from-Ends (suc f) n h =
      attempt-Ends (suc f) n (w.outcome n) (retry_from delayer max_elapsed w (suc f) (suc n)) refl (
        inr
          (later f n _ (retry_from-Ends f (suc n) (subst (λ k. delayer k ≡ none) (omega arith) h))))

-- With a policy that limits the attempts, `Retry` ends whatever the operation, the clock and the
-- context do, with at most that many attempts. It succeeds only if its last attempt did; it answers an
-- error that its last attempt gave, either a permanent one or one after which the policy or the time
-- allows no other attempt; and it is aborted only by the context.
pub retry-ends :
    {E : Type 0} (p : Policy) (max_elapsed : ℕ) (w : World E)
    → 0 < p.max_attempts
    → (r : Run E) × (retry (next_delay p) max_elapsed w p.max_attempts ≡ some r)
      × (1 ≤ r.attempts)
      × (r.attempts ≤ p.max_attempts)
      × Because (next_delay p) max_elapsed w r.attempts r.ending
unfolding retry
retry-ends {E} p max_elapsed w h = at_limit p.max_attempts refl h
  where
    limited :
        (f : ℕ) (o : Option (Run E))
        → Ends (next_delay p) max_elapsed w f 1 o
        → (r : Run E) × (o ≡ some r)
          × (1 ≤ r.attempts)
          × (r.attempts ≤ suc f)
          × Because (next_delay p) max_elapsed w r.attempts r.ending
    limited f none k = absurd k
    limited f (some r) k = (r, refl, k.0, omega arith, k.2)

    at_limit :
        (m : ℕ)
        → p.max_attempts ≡ m
        → 0 < m
        → (r : Run E) × (retry (next_delay p) max_elapsed w m ≡ some r)
          × (1 ≤ r.attempts)
          × (r.attempts ≤ m)
          × Because (next_delay p) max_elapsed w r.attempts r.ending
    at_limit zero e k = elim k [ ]
    at_limit (suc f) e k =
        limited f (retry (next_delay p) max_elapsed w (suc f)) (
          retry_from-Ends (next_delay p) max_elapsed w f 1 (unfold next_delay in ground (arith, e)))

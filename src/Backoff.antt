-- ===== src/Backoff.antt =====
-- internal/backoff/backoff.go: when a policy gives up, and the retry loop. `delay` is the wait that
-- the policy computes in floating point, which is not modelled; durations are nanoseconds.
pub mod Endings
use consulx.Prelude.{
  ℕ, zero, suc, ◌+◌, Bool, true, false, ◌&&◌, ◌||◌, List, [], ◌∷◌, Option, none, some, ltb, leb,
  if◌then◌else◌, ◌==◌, max,
}

pub record Policy : Type 0 where
  pub max_attempts : ℕ  -- 0 means unlimited
  pub delay : ℕ → ℕ

-- `NextDelay`: `none` when no further attempt must be made. An attempt below 1 counts as the first.
unfoldable pub next_delay : Policy → ℕ → Option ℕ
next_delay p attempt =
    let n = max attempt 1 in
    if ltb 0 p.max_attempts && leb p.max_attempts n then none else some (p.delay n)

-- What one call of the operation answers; `permanent` is an error wrapped by `Permanent`.
pub data Outcome (E : Type 0) : Type 0 where
  ok : Outcome E
  failed permanent : E → Outcome E

-- What the loop meets at each attempt: the outcome, whether the context is over after it, the time
-- since the start, and whether the context ends the wait.
pub record World (E : Type 0) : Type 0 where
  pub outcome : ℕ → Outcome E
  pub ctx_over : ℕ → Bool
  pub since_start : ℕ → ℕ
  pub interrupted : ℕ → Bool

pub data Ending (E : Type 0) : Type 0 where
  succeeded : Ending E
  returned : E → Ending E
  aborted : E → Ending E  -- the error, and that of the context

-- How the loop ends, at which attempt, and the calls of `notify`.
pub record Run (E : Type 0) : Type 0 where
  pub ending : Ending E
  pub attempts : ℕ
  pub notified : List (ℕ × ℕ)

module _ {E : Type 0} (delayer : ℕ → Option ℕ) (max_elapsed : ℕ) (w : World E) where
  abbrev end_at : ℕ → Ending E → Option (Run E)
  end_at n e = some (record { ending = e; attempts = n; notified = [] })

  -- A call of `notify`, before what follows.
  notify : ℕ → ℕ → Option (Run E) → Option (Run E)
  notify n d none = none
  notify n d (some r) = some (record r { notified = (n, d) ∷ r.notified })

  -- What follows a failure that may be retried.
  after_failure : ℕ → E → Option (Run E) → Option (Run E)
  unfolding notify
  after_failure n e rest = if w.ctx_over n then end_at n (aborted e) else elim (delayer n) [
    | none ↦ end_at n (returned e)
    | some d ↦
        if ltb 0 max_elapsed && ltb max_elapsed (w.since_start n + d)
        then end_at n (returned e)
        else notify n d (if w.interrupted n then end_at n (aborted e) else rest)
  ]

  attempt : ℕ → Outcome E → Option (Run E) → Option (Run E)
  unfolding after_failure
  attempt n ok rest = end_at n succeeded
  attempt n (permanent e) rest = end_at n (returned e)
  attempt n (failed e) rest = after_failure n e rest

  -- The loop from attempt `n` on. `none` says that the fuel ran out.
  unfoldable pub retry_from : ℕ → ℕ → Option (Run E)
  unfolding attempt
  retry_from zero n = none
  retry_from (suc f) n = attempt n (w.outcome n) (retry_from f (suc n))

  unfoldable pub retry : ℕ → Option (Run E)
  unfolding retry_from
  retry fuel = retry_from fuel 1

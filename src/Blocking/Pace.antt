-- ===== src/Blocking/Pace.antt =====
-- The token bucket admits no more than `burst` requests beyond one for each interval, but for its rounding.
use consulx.Prelude.{
  ℕ, ◌+◌, ◌*◌, ◌≤◌, ◌<◌, List, [], ◌∷◌, ◌≡◌, refl, sym, ◌∙◌, some, none, arith, length,
}
use mathlib.Core.Path.{subst}
use consulx.Blocking.{Limiter, Rounding, new_limiter, reserve}

-- The limiter after a request at each of these clock readings, in this order, each with its rounding.
unfoldable pub reserve_all : Limiter → List (ℕ × Rounding) → Limiter
reserve_all l [] = l
reserve_all l ((now, r) ∷ calls) = reserve_all (reserve l now r).0 calls

-- The moment at which the last request was let through; 0 before the first.
abbrev pub last_release : Limiter → ℕ
last_release l = elim l.last [ none ↦ 0 | some t ↦ t ]

-- What the calls gain by rounding, in time.
abbrev pub rounding_of : List (ℕ × Rounding) → ℕ
rounding_of [] = 0
rounding_of ((now, r) ∷ calls) = r.gained + r.sooner + rounding_of calls

-- A request is let through at its clock reading plus its wait.
reserve-last :
    (l : Limiter) (now : ℕ) (r : Rounding)
    → 0 < l.interval
    → (reserve l now r).0.last ≡ some (now + (reserve l now r).1)
unfolding reserve
reserve-last l now r h = ground arith

reserve-interval :
    (l : Limiter) (now : ℕ) (r : Rounding) → (reserve l now r).0.interval ≡ l.interval
unfolding reserve
reserve-interval l now r = ground arith

-- `last` less `credit` moves on by an interval with every request, less what rounding gains.
reserve_step :
    (l : Limiter) (now t : ℕ) (r : Rounding)
    → 0 < l.interval
    → l.last ≡ some t
    → t + (reserve l now r).0.credit + l.interval
      ≤ now + (reserve l now r).1 + l.credit + (r.gained + r.sooner)
unfolding reserve
reserve_step l now t r h e = ground arith

-- What holds of every limiter that began with the interval and the burst.
record Bucket (interval burst : ℕ) (l : Limiter) : Type 0 where
  every : l.interval ≡ interval
  most : l.burst ≡ burst
  held : l.credit ≤ l.burst * l.interval

reserve-held :
    (l : Limiter) (now : ℕ) (r : Rounding)
    → l.credit ≤ l.burst * l.interval
    → (reserve l now r).0.credit ≤ (reserve l now r).0.burst * (reserve l now r).0.interval
unfolding reserve
reserve-held l now r h = ground arith

reserve-burst : (l : Limiter) (now : ℕ) (r : Rounding) → (reserve l now r).0.burst ≡ l.burst
unfolding reserve
reserve-burst l now r = ground arith

reserve_all-Bucket :
    (interval burst : ℕ) (calls : List (ℕ × Rounding)) (l : Limiter)
    → Bucket interval burst l
    → Bucket interval burst (reserve_all l calls)
unfolding reserve_all
reserve_all-Bucket interval burst [] l h = h
reserve_all-Bucket interval burst ((now, r) ∷ calls) l h =
    reserve_all-Bucket interval burst calls (reserve l now r).0 (record {
      every = reserve-interval l now r ∙ h.every;
      most = reserve-burst l now r ∙ h.most;
      held = reserve-held l now r h.held;
    })

reserve_first :
    (l : Limiter) (now : ℕ) (r : Rounding)
    → 0 < l.interval
    → l.credit ≤ l.burst * l.interval
    → now + (reserve l now r).0.credit + l.interval
      ≤ now + (reserve l now r).1 + l.burst * l.interval + (r.gained + r.sooner)
unfolding reserve
reserve_first l now r h k = ground arith

reserve_all_step :
    (calls : List (ℕ × Rounding)) (l : Limiter) (t : ℕ)
    → 0 < l.interval
    → l.last ≡ some t
    → t + length calls * l.interval
      ≤ last_release (reserve_all l calls) + l.credit + rounding_of calls
unfolding reserve_all
reserve_all_step [] l t h e = rw e (omega arith)
reserve_all_step ((now, r) ∷ calls) l t h e =
    let fixed = reserve-interval l now r in
    let later =
      reserve_all_step calls (reserve l now r).0 (now + (reserve l now r).1) (rw fixed h)
        (reserve-last l now r h) in
    let later' = rw fixed at later in omega (arith, reserve_step l now t r h e, later')

reserve_all_window :
    (l : Limiter) (now : ℕ) (r : Rounding) (calls : List (ℕ × Rounding))
    → 0 < l.interval
    → l.credit ≤ l.burst * l.interval
    → now + length ((now, r) ∷ calls) * l.interval
      ≤ last_release (reserve_all l ((now, r) ∷ calls))
        + l.burst * l.interval
        + rounding_of ((now, r) ∷ calls)
unfolding reserve_all
reserve_all_window l now r calls h k =
    let fixed = reserve-interval l now r in
    let later =
      reserve_all_step calls (reserve l now r).0 (now + (reserve l now r).1) (rw fixed h)
        (reserve-last l now r h) in
    let later' = rw fixed at later in omega (arith, reserve_first l now r h k, later')

-- Of any consecutive requests to a limiter, at whatever clock readings and after whatever earlier
-- requests, the last is let through no earlier than `n - burst` intervals after the first reading, `n`
-- being their number, but for what they gain by rounding: the tokens that the float64 arithmetic of
-- each adds to the exact number, in time, and the time by which its wait is cut short. The interval is
-- positive.
pub reserve_all_pace :
    (interval burst : ℕ) (before : List (ℕ × Rounding)) (now : ℕ) (r : Rounding)
    (calls : List (ℕ × Rounding))
    → 0 < interval
    → now + length ((now, r) ∷ calls) * interval
      ≤ last_release
          (reserve_all (reserve_all (new_limiter interval burst) before) ((now, r) ∷ calls))
        + burst * interval
        + rounding_of ((now, r) ∷ calls)
reserve_all_pace interval burst before now r calls h =
    let b =
      reserve_all-Bucket interval burst before (new_limiter interval burst)
        (unfold new_limiter in record { every = refl; most = refl; held = omega arith }) in
    at_bucket (reserve_all (new_limiter interval burst) before) b.every b.most b.held
  where
    at_bucket :
        (l : Limiter)
        → l.interval ≡ interval
        → l.burst ≡ burst
        → l.credit ≤ l.burst * l.interval
        → now + length ((now, r) ∷ calls) * interval
          ≤ last_release (reserve_all l ((now, r) ∷ calls))
            + burst * interval
            + rounding_of ((now, r) ∷ calls)
    at_bucket l every most held =
        let n = length ((now, r) ∷ calls) in
        let end = last_release (reserve_all l ((now, r) ∷ calls)) in
        let gain = rounding_of ((now, r) ∷ calls) in
        let window = reserve_all_window l now r calls (subst (λ i. 0 < i) (sym every) h) held in
        subst (λ i. now + n * i ≤ end + burst * i + gain) every
          (subst (λ b. now + n * l.interval ≤ end + b * l.interval + gain) most window)

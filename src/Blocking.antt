-- ===== src/Blocking.antt =====
-- internal/blocking/blocking.go: the index rule of blocking queries, the token bucket that paces
-- them, and the bound of one request. Durations and clock readings do not wrap.
--
-- The bucket of the source counts tokens in float64, and rounds. Here `credit` is the number of tokens
-- times the interval, and the time of the bucket goes in units of 2^-1074 nanoseconds, so that every
-- float64 is a whole number of them. By how much a call of the source departs from exact arithmetic is
-- an argument (`Rounding`), which may be anything.
pub mod Pace
use consulx.Prelude.{ℕ, ◌+◌, ◌-◌, ◌*◌, ◌/◌, Option, none, some, ltb, leb, ◌==◌, if◌then◌else◌}

unfoldable pub next_index : ℕ → ℕ → ℕ
next_index prev got = if ltb got prev then 0 else if got == 0 then 1 else got

unfoldable pub request_timeout : ℕ → ℕ → ℕ
request_timeout wait request = wait + wait / 16 + request

pub record Limiter : Type 0 where
  pub interval : ℕ
  pub burst : ℕ
  pub credit : ℕ
  pub last : Option ℕ  -- `none` is the zero time

unfoldable pub new_limiter : ℕ → ℕ → Limiter
new_limiter interval burst = record {
  interval = interval;
  burst = burst;
  credit = burst * interval;
  last = none;
}

-- A duration that may be negative, as a difference. `last` lies in the future while an
-- earlier caller still waits, and the tokens then are fewer than none.
pub record Credit : Type 0 where
  pub plus : ℕ
  pub minus : ℕ

-- The tokens that the refill has too many or too few, and the wait that is too short (it is truncated to
-- nanoseconds) or too long.
pub record Rounding : Type 0 where
  pub gained : ℕ
  pub missed : ℕ
  pub sooner : ℕ
  pub later : ℕ

-- `min(l.burst, l.tokens + now.Sub(l.last)/l.interval)`, scaled.
refill : Limiter → ℕ → Rounding → Credit
refill l now r = elim l.last [
  | none ↦ record { plus = l.credit; minus = 0 }
  | some last ↦
      if leb (l.credit + now + r.gained) (l.burst * l.interval + last + r.missed)
      then record { plus = l.credit + now + r.gained; minus = last + r.missed }
      else record { plus = l.burst * l.interval; minus = 0 }
]

-- Taking one token: the next state and the wait. Where a token is left, the subtraction is exact.
spend : Limiter → ℕ → Rounding → Credit → Limiter × ℕ
spend l now r c =
    if leb (l.interval + c.minus) c.plus
    then (record l { credit = c.plus - (l.interval + c.minus); last = some now }, 0)
    else let wait = l.interval + c.minus - c.plus + r.later - r.sooner in
      (record l { credit = 0; last = some (now + wait) }, wait)

-- The locked part of `Limiter.Wait`. The caller then sleeps for the wait, or until its context ends.
unfoldable pub reserve : Limiter → ℕ → Rounding → Limiter × ℕ
unfolding refill spend
reserve l now r = if l.interval == 0 then (l, 0) else spend l now r (refill l now r)

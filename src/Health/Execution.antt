-- ===== src/Health/Execution.antt =====
-- health/health.go, begin, wait and runChecker: the execution of one component's checker, shared by
-- the probes that need it at the same time.
use consulx.Prelude.{
  ℕ, suc, ◌<◌, ◌≤◌, ◌↔◌, ◌==◌, Bool, List, [], ◌∷◌, Option, none, some, codes, ◌≡◌, refl, arith,
  if◌then◌else◌,
}
use consulx.Health.{down, CheckResult}

abbrev pub failed : CheckResult
failed = record { status = down; details = []; error = codes "health check panicked" }

abbrev pub timed_out : CheckResult
timed_out = record { status = down; details = []; error = codes "health check timed out" }

-- How a call of the application's `Check` ends.
pub data Ending : Type 0 where
  returned : CheckResult → Ending
  panics : Ending

-- `overdue` is `ctx.Err() != nil` after the call.
unfoldable pub run_checker : Ending → Bool → CheckResult
run_checker panics overdue = failed
run_checker (returned res) overdue = if overdue then timed_out else res

-- Which case of the first `select` of `wait` fires.
pub data Fired : Type 0 where
  call_done : Fired
  deadline : Fired

-- `published` is the result of the call when the second `select` looks, if its channel is closed.
unfoldable pub wait : Fired → Option CheckResult → CheckResult
wait call_done none = timed_out
wait call_done (some res) = res
wait deadline none = timed_out
wait deadline (some res) = res

-- The calls of a component: the one in flight, how many were started, and the results published.
pub record Calls : Type 0 where
  pub inflight : Option ℕ
  pub started : ℕ
  pub results : List (ℕ × CheckResult)

abbrev pub no_calls : Calls
no_calls = record { inflight = none; started = 0; results = [] }

-- The call that the probe shares, and the calls after it.
unfoldable pub begin : Calls → Calls × ℕ
begin c = elim c.inflight [
  | some n ↦ (c, n)
  | none ↦ (record c { inflight = some c.started; started = suc c.started }, c.started)
]

-- The goroutine of the call `n` publishes its result.
unfoldable pub finish : Calls → ℕ → CheckResult → Calls
finish c n res = record c { inflight = none; results = (n, res) ∷ c.results }

unfoldable pub answer : ℕ → List (ℕ × CheckResult) → Option CheckResult
answer n [] = none
answer n ((m, res) ∷ results) = let rest = answer n results in if m == n then some res else rest

-- The goroutine of the call `n` was started and has not published.
abbrev pub IsRunning : Calls → ℕ → Type 0
IsRunning c n = (n < c.started) × (answer n c.results ≡ none)

-- A probe begins, or a running call ends: in any order.
pub data Step : Calls → Calls → Type 0 where
  probe : (c : Calls) → Step c (begin c).0
  end_of :
      (c : Calls) (n : ℕ) (ending : Ending) (overdue : Bool)
      → IsRunning c n
      → Step c (finish c n (run_checker ending overdue))

pub data Reach : Calls → Type 0 where
  initial : Reach no_calls
  next : {c d : Calls} → Reach c → Step c d → Reach d

pub record Single (c : Calls) : Type 0 where
  pub shared : (n : ℕ) → n < c.started → answer n c.results ≡ none → c.inflight ≡ some n
  pub started : (n : ℕ) → c.inflight ≡ some n → n < c.started
  pub silent : (n : ℕ) → c.inflight ≡ some n → answer n c.results ≡ none
  pub fresh : (n : ℕ) → c.started ≤ n → answer n c.results ≡ none

begin-Single : (c : Calls) → Single c → Single (begin c).0
unfolding begin
begin-Single c h = record {
  shared = λ n lt e. ground (arith, h.shared n);
  started = λ n e. ground (arith, h.started n);
  silent = λ n e. ground (arith, h.silent n, h.fresh n);
  fresh = λ n le. ground (arith, h.fresh n);
}

finish-Single :
    (c : Calls) (n : ℕ) (res : CheckResult) → IsRunning c n → Single c → Single (finish c n res)
unfolding finish answer
finish-Single c n res r h = record {
  shared = λ m lt e. ground (arith, r, h.shared n, h.shared m);
  started = λ m e. ground (arith, e);
  silent = λ m e. ground (arith, e);
  fresh = λ m le. ground (arith, r, h.fresh m);
}

Step-Single : {c d : Calls} → Step c d → Single c → Single d
Step-Single (probe c) h = begin-Single c h
Step-Single (end_of c n ending overdue r) h = finish-Single c n (run_checker ending overdue) r h

Reach-Single : {c : Calls} → Reach c → Single c
Reach-Single initial = record {
  shared = λ n lt e. elim lt [ ];
  started = λ n e. ground (arith, e);
  silent = λ n e. ground (arith, e);
  fresh = λ n le. unfold answer in refl;
}
Reach-Single (next r st) = Step-Single st (Reach-Single r)

-- Whatever probes begin and whatever calls end, in any order, the running calls of a component are
-- exactly the one in flight: a checker that hangs never has a second call beside it. A probe that
-- begins while it runs shares it and starts none.
pub Reach-single :
    {c : Calls} (n : ℕ)
    → Reach c
    → (IsRunning c n ↔ (c.inflight ≡ some n)) × (begin (begin c).0 ≡ begin c)
unfolding begin
Reach-single {c} n r =
    let h = Reach-Single r in
    ((λ k. h.shared n k.0 k.1, λ e. (h.started n e, h.silent n e)), ground arith)

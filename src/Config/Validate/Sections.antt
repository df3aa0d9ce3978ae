-- ===== src/Config/Validate/Sections.antt =====
-- config.go, `validate`: what the tests of the agent, the health checks and the retries ask.
use consulx.Prelude.{
  Bool, true, false, ◌&&◌, ◌||◌, not, List, [], ◌∷◌, Text, codes, text_eq, text_eq_iff, is_empty,
  any_of, Bool-cases, ◌≡◌, ◌↔◌, ◌⊎◌, inl, inr, refl, arith, ◌==◌,
}
use consulx.Prelude.Predicates.{All}
use consulx.Prelude.Int.{ℤ, pos, ◌≤ℤ◌, ltb_ℤ, is_zero_ℤ}
use consulx.Config.{ConsulConfig, HealthConfig, RetryConfig, one}
use consulx.Config.Defaults.{max_wait_time, min_deregister_critical_after, seconds}
use consulx.Config.Validate.{
  Problem, faults, consul_tests, health_tests, retry_tests, content, is_scheme,
}

abbrev pub Passes : Bool × Problem → Type 0
Passes t = t.0 ≡ false

pub faults_iff : (ts : List (Bool × Problem)) → (faults ts ≡ []) ↔ All Passes ts
unfolding faults
faults_iff [] = (λ h. tt, λ h. refl)
faults_iff ((true, p) ∷ ts) = (λ h. cc, λ h. cc (h.0))
faults_iff ((false, p) ∷ ts) = let rest = faults_iff ts in (λ h. (refl, rest.0 h), λ h. rest.1 h.1)

abbrev pub IsScheme : Text → Type 0
IsScheme s = (s ≡ []) ⊎ (s ≡ codes "http") ⊎ (s ≡ codes "https")

pub is_scheme-IsScheme : (s : Text) → not (is_scheme s) ≡ false → IsScheme s
is_scheme-IsScheme [] h = inl refl
is_scheme-IsScheme (c ∷ cs) h = elim (Bool-cases (text_eq (c ∷ cs) (codes "http"))) [
  | inl e ↦ inr (inl ((text_eq_iff (c ∷ cs) (codes "http")).0 e))
  | inr e ↦ inr (inr ((text_eq_iff (c ∷ cs) (codes "https")).0 (ground (arith, e, h))))
]

pub IsScheme-is_scheme : (s : Text) → IsScheme s → not (is_scheme s) ≡ false
unfolding text_eq
IsScheme-is_scheme s (inl e) = rw e refl
IsScheme-is_scheme s (inr (inl e)) = rw e refl
IsScheme-is_scheme s (inr (inr e)) = rw e refl

-- Basic authentication is off, or has the form "user:password".
abbrev pub IsAuth : Text → Type 0
IsAuth a = (a ≡ []) ⊎ (any_of (λ x. x == b':') a ≡ true)

IsAuth-iff : (a : Text) → ((not (is_empty a) && not (any_of (λ x. x == b':') a)) ≡ false) ↔ IsAuth a
IsAuth-iff [] = (λ h. inl refl, λ h. refl)
IsAuth-iff (c ∷ cs) = elim (Bool-cases (any_of (λ x. x == b':') (c ∷ cs))) [
  | inl e ↦ (λ h. inr e, λ h. ground (arith, e))
  | inr e ↦ (λ h. cc, λ h. elim h [ inl x ↦ absurd (cc) | inr x ↦ absurd (cc) ])
]

pub record IsConsul (c : ConsulConfig) : Type 0 where
  pub scheme : IsScheme c.scheme
  pub dial_timeout : pos 0 ≤ℤ c.dial_timeout
  pub request_timeout : pos 0 ≤ℤ c.request_timeout
  pub wait_time : (pos 0 ≤ℤ c.wait_time) × (c.wait_time ≤ℤ max_wait_time)
  pub tls_files : is_empty c.tls.cert_file ≡ is_empty c.tls.key_file
  pub tls_pems : is_empty (content c.tls.cert_pem) ≡ is_empty (content c.tls.key_pem)
  pub http_auth : IsAuth c.http_auth

pub consul_tests-IsConsul : (c : ConsulConfig) → All Passes (consul_tests c) → IsConsul c
unfolding consul_tests
consul_tests-IsConsul c (s, (dial, (request, (wait, (files, (pems, (auth, _))))))) = record {
  scheme = is_scheme-IsScheme c.scheme s;
  dial_timeout = ground (arith, dial);
  request_timeout = ground (arith, request);
  wait_time = ground (arith, wait);
  tls_files = ground (arith, files);
  tls_pems = ground (arith, pems);
  http_auth = (IsAuth-iff c.http_auth).0 auth;
}

pub IsConsul-consul : (c : ConsulConfig) → IsConsul c → All Passes (consul_tests c)
unfolding consul_tests
IsConsul-consul c v = (
  IsScheme-is_scheme c.scheme v.scheme,
  (
    ground (arith, v.dial_timeout),
    (
      ground (arith, v.request_timeout),
      (
        ground (arith, v.wait_time),
        (
          ground (arith, v.tls_files),
          (ground (arith, v.tls_pems), ((IsAuth-iff c.http_auth).1 v.http_auth, tt)),
        ),
      ),
    ),
  ),
)

pub record IsHealth (h : HealthConfig) : Type 0 where
  pub degraded :
      (h.degraded_status_code ≡ pos 0)
      ⊎ ((pos 200 ≤ℤ h.degraded_status_code) × (h.degraded_status_code ≤ℤ pos 599))
  pub interval : pos 1 ≤ℤ h.interval
  pub timeout : (pos 1 ≤ℤ h.timeout) × (h.timeout ≤ℤ h.interval)
  pub ttl : seconds 1 ≤ℤ h.ttl
  pub deregister :
      (h.deregister_critical_service_after ≤ℤ pos 0)
      ⊎ (min_deregister_critical_after ≤ℤ h.deregister_critical_service_after)
  pub flap_damping :
      (pos 0 ≤ℤ h.success_before_passing)
      × (pos 0 ≤ℤ h.failures_before_warning)
      × (pos 0 ≤ℤ h.failures_before_critical)

abbrev bad_code : ℤ → Bool
bad_code z = not (is_zero_ℤ z) && (ltb_ℤ z (pos 200) || ltb_ℤ (pos 599) z)

code_iff : (z : ℤ) → (bad_code z ≡ false) ↔ ((z ≡ pos 0) ⊎ ((pos 200 ≤ℤ z) × (z ≤ℤ pos 599)))
code_iff z = elim (Bool-cases (is_zero_ℤ z)) [
  | inl e ↦ (λ h. inl (ground (arith, e)), λ h. rw e refl)
  | inr e ↦ (
    λ h. inr (ground (arith, e, h), ground (arith, e, h)),
    λ h. elim h [ inl x ↦ ground (arith, x, e) | inr x ↦ ground (arith, x, e) ],
  )
]

abbrev too_soon : ℤ → Bool
too_soon z = ltb_ℤ (pos 0) z && ltb_ℤ z min_deregister_critical_after

after_iff : (z : ℤ) → (too_soon z ≡ false) ↔ ((z ≤ℤ pos 0) ⊎ (min_deregister_critical_after ≤ℤ z))
after_iff z = elim (Bool-cases (ltb_ℤ (pos 0) z)) [
  | inl e ↦ (
    λ h. inr (ground (arith, e, h)),
    λ h. elim h [ inl x ↦ ground (arith, x, e) | inr x ↦ ground (arith, x, e) ],
  )
  | inr e ↦ (λ h. inl (ground (arith, e)), λ h. rw e refl)
]

pub health-IsHealth : (h : HealthConfig) → All Passes (health_tests h) → IsHealth h
unfolding health_tests
health-IsHealth h (code, (i, (t, (ttl, (after, (flap, _)))))) = record {
  degraded = (code_iff h.degraded_status_code).0 code;
  interval = ground (arith, i);
  timeout = ground (arith, t);
  ttl = ground (arith, ttl);
  deregister = (after_iff h.deregister_critical_service_after).0 after;
  flap_damping = ground (arith, flap);
}

pub IsHealth-health : (h : HealthConfig) → IsHealth h → All Passes (health_tests h)
unfolding health_tests
IsHealth-health h v = (
  (code_iff h.degraded_status_code).1 v.degraded,
  (
    ground (arith, v.interval),
    (
      ground (arith, v.timeout),
      (
        ground (arith, v.ttl),
        (
          (after_iff h.deregister_critical_service_after).1 v.deregister,
          (ground (arith, v.flap_damping), tt),
        ),
      ),
    ),
  ),
)

pub record IsRetry (r : RetryConfig) : Type 0 where
  pub delays : (pos 0 ≤ℤ r.initial_delay) × (r.initial_delay ≤ℤ r.max_delay)
  pub multiplier : pos one ≤ℤ r.multiplier
  pub limits : (pos 0 ≤ℤ r.max_attempts) × (pos 0 ≤ℤ r.max_elapsed)

pub retry-IsRetry : (r : RetryConfig) → All Passes (retry_tests r) → IsRetry r
unfolding retry_tests
retry-IsRetry r (d, (m, (l, _))) = record {
  delays = ground (arith, d);
  multiplier = ground (arith, m);
  limits = ground (arith, l);
}

pub IsRetry-retry : (r : RetryConfig) → IsRetry r → All Passes (retry_tests r)
unfolding retry_tests
IsRetry-retry r v =
    (ground (arith, v.delays), (ground (arith, v.multiplier), (ground (arith, v.limits), tt)))

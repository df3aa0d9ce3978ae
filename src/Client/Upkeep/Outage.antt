-- ===== src/Client/Upkeep/Outage.antt =====
-- An outage of the agent, from the first failed watch to the first answer.
use consulx.Prelude.{
  ℕ, suc, ◌+◌, false, List, [], ◌∷◌, ◌++◌, Option, none, length, ◌≡◌, refl, arith, ◌∙◌, ap,
}
use consulx.Prelude.Predicates.{All}
use consulx.Client.Lifecycle.{running, degraded}
use consulx.Client.Failures.{Failure, op_error, is_status}
use consulx.Client.Upkeep.{Registrar, watch_next, present, failed, on_reply}

module _ (retry : ℕ → Option ℕ) (max_delay : ℕ) where
  -- The registrar after these failed watches.
  unfoldable pub after : Registrar → List Failure → Registrar
  after r [] = r
  after r (e ∷ es) = after (on_reply retry max_delay r (failed e)).0 es

  -- No failure says that the agent lost the service.
  abbrev pub Unavailable : List Failure → Type 0
  Unavailable es = All (λ e. is_status e 404 ≡ false) es

  -- A failure after the first one of an outage only counts.
  step_again :
      (r : Registrar) (e : Failure) (n : ℕ)
      → is_status e 404 ≡ false
      → r.state ≡ degraded
      → r.failures ≡ suc n
      → (on_reply retry max_delay r (failed e)).0 ≡ record r { failures = suc (suc n) }
  unfolding on_reply
  step_again r e n h s f = ground (arith, h, s, f)

  after_again :
      (es : List Failure) (r : Registrar) (n : ℕ)
      → Unavailable es
      → r.state ≡ degraded
      → r.failures ≡ suc n
      → after r es ≡ record r { failures = suc n + length es }
  unfolding after
  after_again [] r n h s f = ground (arith, f)
  after_again (e ∷ es) r n h s f =
      ap (λ x. after x es) (step_again r e n h.0 s f)
      ∙ after_again es (record r { failures = suc (suc n) }) (suc n) h.1 s refl
      ∙ ground arith

  -- The registrar in the middle of an outage that began with `e` and has failed `n` times more.
  abbrev pub in_outage : Registrar → Failure → ℕ → Registrar
  in_outage r e n = record r {
    state = degraded;
    failures = suc n;
    reported = r.reported ++ (op_error none e ∷ []);
  }

  -- An outage, however many requests fail in it, is reported once, with its first error, and leaves
  -- the client Degraded, the service still counted as registered, and the failures counted; the first
  -- answer after it makes the client Running, ends the count and counts one reconnection. The client
  -- is Running before, with no failure, and no failure says that the agent lost the service.
  pub outage-reported :
      (r : Registrar) (e : Failure) (es : List Failure)
      → r.state ≡ running
      → r.failures ≡ 0
      → Unavailable (e ∷ es)
      → (after r (e ∷ es) ≡ in_outage r e (length es))
        × (on_reply retry max_delay (in_outage r e (length es)) present ≡ (
          record r {
            reported = r.reported ++ (op_error none e ∷ []);
            reconnects = suc r.reconnects;
          },
          watch_next,
        ))
  unfolding after on_reply
  outage-reported r e es s f h = (
    ap (λ x. after x es) (first_failure h.0)
        ∙ after_again es (in_outage r e 0) 0 h.1 refl refl
        ∙ ground arith,
    ground (arith, s, f),
  )
    where
      first_failure :
          is_status e 404 ≡ false → (on_reply retry max_delay r (failed e)).0 ≡ in_outage r e 0
      first_failure k = unfold on_reply in ground (arith, k, s, f)

-- ===== src/Client/Lifecycle/Steps.antt =====
-- The steps of a client: Start and Stop under their lock, the registrar, and a reader of the errors.
use consulx.Prelude.{Bool, true, false, List, ◌∷◌, Text, ◌≡◌}
use consulx.Client.Lifecycle.{
  State, free, registering, started, settling, marking, cancelling, waiting, shutting_down,
  finishing, released, announced, shut, Task, absent, active, swapping, returned, Client,
  new_lifecycle, report, release, announce, shut_errors, close_done, begin_start, StartUp, start_up,
  after_start, look, settle, begin_stop, mark_draining, cancel, set_degraded, set_running,
}

-- `wg.Wait` returns: no task runs.
abbrev pub at_rest : Task → Bool
at_rest absent = true
at_rest active = false
at_rest (swapping s) = false
at_rest returned = true

pub data Step : Client → Client → Type 0 where
  start_begins : (c : Client) → c.op ≡ free → Step c (begin_start c).0
  start_goes_on :
      (c : Client) (u : StartUp) → c.op ≡ registering → Step c (after_start c (start_up u))
  start_looks : (c : Client) → c.op ≡ started → Step c (look c)
  start_settles : (c : Client) → c.op ≡ settling → Step c (settle c)
  stop_begins : (c : Client) → c.op ≡ free → Step c (begin_stop c).0
  stop_marks : (c : Client) → c.op ≡ marking → Step c (mark_draining c)
  stop_cancels : (c : Client) → c.op ≡ cancelling → Step c (cancel c)
  stop_waited :
      (c : Client)
      → c.op ≡ waiting
      → at_rest c.task ≡ true
      → Step c (record c { op = shutting_down })
  stop_finishes : (c : Client) → c.op ≡ shutting_down → Step c (record c { op = finishing })
  finish_releases : (c : Client) → c.op ≡ finishing → Step c (release c)
  finish_announces : (c : Client) → c.op ≡ released → Step c (announce c)
  finish_shuts : (c : Client) → c.op ≡ announced → Step c (shut_errors c)
  finish_ends : (c : Client) → c.op ≡ shut → Step c (close_done c)
  degrades : (c : Client) → c.task ≡ active → Step c (set_degraded c)
  recovers : (c : Client) → c.task ≡ active → Step c (set_running c)
  swaps :
      (c : Client) (s : State)
      → c.task ≡ swapping s
      → Step c (record c { state = s; task = active })
  reports : (c : Client) (e : Text) → c.task ≡ active → Step c (report c e)
  returns :
      (c : Client) → c.task ≡ active → c.cancelled ≡ true → Step c (record c { task = returned })
  gives_up :  -- the retry policy does, before the context ends
      (c : Client) (e : Text) → c.task ≡ active → Step c (record (report c e) { task = returned })
  reads :
      (c : Client) (e : Text) (es : List Text) → c.errs ≡ e ∷ es → Step c (record c { errs = es })

pub data Reach : Client → Type 0 where
  created : Reach new_lifecycle
  next : {c d : Client} → Reach c → Step c d → Reach d

-- The clients that steps lead to from `c`.
pub data From (c : Client) : Client → Type 0 where
  here : From c c
  further : {d e : Client} → From c d → Step d e → From c e

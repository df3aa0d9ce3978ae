-- ===== src/KvConfig/Watching/Current.antt =====
-- What a watcher publishes.
use consulx.Prelude.{Bool, Option, none, some, Text, ◌≡◌, refl, Bool-cases, inl, inr}
use consulx.KvConfig.Watching.{
  Watcher, Bound, bound, unbound, refused, built, Loaded, loaded, failed, build_value, validated,
  reload, rejected_again,
}

module _ {T Tree : Type 0} (bind : Tree → Bound T) (validate : T → Option Text)
    (same_value : T → T → Bool) (same_tree : Tree → Tree → Bool) where
  -- The loop reloads, or a reader takes a change or an error: in any order.
  pub data Step : Watcher T Tree → Watcher T Tree → Type 0 where
    reloads :
        (w : Watcher T Tree) (l : Loaded Tree)
        → Step w (reload same_value same_tree w (build_value bind validate l)).0
    reads_change : (w : Watcher T Tree) → Step w (record w { changes = none })
    reads_error : (w : Watcher T Tree) → Step w (record w { errs = none })

  -- The states of a watcher that began with the value `first`.
  pub data Reach (first : T) : Watcher T Tree → Type 0 where
    begin : Reach first (record { current = first; rejected = none; changes = none; errs = none })
    next : {w x : Watcher T Tree} → Reach first w → Step w x → Reach first x

  abbrev pub Newest : Option T → T → Type 0
  Newest none current = Unit
  Newest (some v) current = v ≡ current

  -- The value passes the validation, and a change that nobody has read is that value.
  pub record Sound (w : Watcher T Tree) : Type 0 where
    pub valid : validate w.current ≡ none
    pub newest : Newest w.changes w.current

  reload-Sound :
      (w : Watcher T Tree) (l : Loaded Tree)
      → Sound w
      → Sound (reload same_value same_tree w (build_value bind validate l)).0
  unfolding build_value
  reload-Sound w (failed e) h = unfold reload in record { valid = h.valid; newest = h.newest }
  reload-Sound w (loaded tree) h = by_bound (bind tree)
    where
      by_refused : (e : Text) → Sound (reload same_value same_tree w (refused tree e)).0
      by_refused e =
          unfold reload in
          elim (Bool-cases (rejected_again same_value same_tree w.rejected tree)) [
            | inl b ↦ rw b h
            | inr b ↦ rw b (record { valid = h.valid; newest = h.newest })
          ]

      by_built : (v : T) → validate v ≡ none → Sound (reload same_value same_tree w (built v)).0
      by_built v k =
          unfold reload in
          elim (Bool-cases (same_value w.current v)) [
            | inl b ↦ rw b (record { valid = h.valid; newest = h.newest })
            | inr b ↦ rw b (record { valid = k; newest = refl })
          ]

      by_verdict :
          (v : T) (o : Option Text)
          → validate v ≡ o
          → Sound
              (reload same_value same_tree w
                (elim o [ some e ↦ refused tree e | none ↦ built v ])).0
      by_verdict v none k = by_built v k
      by_verdict v (some e) k = by_refused e

      by_bound :
          (b : Bound T) → Sound (reload same_value same_tree w (validated bind validate tree b)).0
      by_bound (unbound e) = unfold validated in by_refused e
      by_bound (bound v) = unfold validated in by_verdict v (validate v) refl

  Step-Sound : {w x : Watcher T Tree} → Step w x → Sound w → Sound x
  Step-Sound (reloads w l) h = reload-Sound w l h
  Step-Sound (reads_change w) h = record { valid = h.valid; newest = tt }
  Step-Sound (reads_error w) h = record { valid = h.valid; newest = h.newest }

  -- Whatever is read and whatever is rejected, in any order: the current value of a watcher passed the
  -- validation, and a change that waits for its reader is the current value, not an older one. The
  -- first value passed the validation.
  pub Reach-Sound :
      {first : T} {w : Watcher T Tree} → Reach first w → validate first ≡ none → Sound w
  Reach-Sound begin h = record { valid = h; newest = tt }
  Reach-Sound (next r st) h = Step-Sound st (Reach-Sound r h)

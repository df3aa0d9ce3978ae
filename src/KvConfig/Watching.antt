-- ===== src/KvConfig/Watching.antt =====
-- kvconfig/watch.go: one reload of a watcher, and the watch of one folder. The value type, the binding
-- of a tree to it, the validation and `reflect.DeepEqual` are parameters; a channel of capacity one is
-- an `Option`, and the signal between the two is a Boolean.
pub mod Current
use consulx.Prelude.{
  ℕ, suc, ◌/◌, Bool, true, false, ◌&&◌, ◌||◌, not, List, [], ◌∷◌, Option, none, some, Text, ltb,
  ◌==◌, if◌then◌else◌,
}
use consulx.Blocking.{next_index}

pub record Watcher (T Tree : Type 0) : Type 0 where
  pub current : T
  pub rejected : Option Tree
  pub changes : Option T
  pub errs : Option Text

pub data Bound (T : Type 0) : Type 0 where
  bound : T → Bound T
  unbound : Text → Bound T

-- What `buildValue` answers: it could not read, it rejects a tree, or it has a value.
pub data Built (T Tree : Type 0) : Type 0 where
  unread : Text → Built T Tree
  refused : Tree → Text → Built T Tree
  built : T → Built T Tree

pub data Loaded (Tree : Type 0) : Type 0 where
  loaded : Tree → Loaded Tree
  failed : Text → Loaded Tree

module _ {T Tree : Type 0} (bind : Tree → Bound T) (validate : T → Option Text) where
  validated : Tree → Bound T → Built T Tree
  validated tree (unbound e) = refused tree e
  validated tree (bound v) = elim (validate v) [ some e ↦ refused tree e | none ↦ built v ]

  unfoldable pub build_value : Loaded Tree → Built T Tree
  unfolding validated
  build_value (failed e) = unread e
  build_value (loaded tree) = validated tree (bind tree)

module _ {T Tree : Type 0} (same_value : T → T → Bool) (same_tree : Tree → Tree → Bool) where
  -- `rejectedTree != nil && reflect.DeepEqual(tree, rejectedTree)`.
  abbrev pub rejected_again : Option Tree → Tree → Bool
  rejected_again none tree = false
  rejected_again (some r) tree = same_tree tree r

  -- One round of the loop of `run` after a signal: the watcher, and the call of OnChange with the old
  -- and the new value.
  unfoldable pub reload : Watcher T Tree → Built T Tree → Watcher T Tree × Option (T × T)
  reload w (unread e) = (record w { errs = some e }, none)
  reload w (refused tree e) =
      if rejected_again w.rejected tree
      then (w, none)
      else (record w { rejected = some tree; errs = some e }, none)
  reload w (built next) =
      if same_value w.current next then (record w { rejected = none }, none) else (
        record w { rejected = none; current = next; changes = some next },
        some (w.current, next),
      )

-- The variables of `watchPrefix`.
pub record Folder : Type 0 where
  pub index : ℕ
  pub had_keys : Bool
  pub failures : ℕ

abbrev pub new_folder : Folder
new_folder = record { index = 0; had_keys = false; failures = 0 }

pub data Answer : Type 0 where
  refused_keys : Answer
  keys : Bool → ℕ → Answer  -- whether there are keys, and the index

-- One round: the variables, whether it signals a change, and the delay before the next round.
unfoldable pub on_answer : (ℕ → Option ℕ) → ℕ → Folder → Answer → Folder × Bool × ℕ
on_answer retry wait_time f refused_keys =
    let failures = suc f.failures in
    (
      record f { failures = failures; index = 0 },
      false,
      elim (retry failures) [ none ↦ wait_time / 10 | some d ↦ d ],
    )
on_answer retry wait_time f (keys has_keys got) =
    let index = next_index f.index got in
    (
      record { index = index; had_keys = has_keys; failures = 0 },
      f.index == 0 || (ltb 0 f.failures || (not (index == f.index) && (has_keys || f.had_keys))),
      0,
    )

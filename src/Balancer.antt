-- ===== src/Balancer.antt =====
-- balancer/: client-side load balancing over discovery watches. Clock readings and durations are
-- nanoseconds that do not wrap; a duration that is not positive is 0 here, as in every test of it.
-- An entry is shared by pointer in the source; here the map holds the entry, and a call that changes
-- it writes it back.
pub mod Pick
pub mod Ejection
pub mod Grace
pub mod Calls
pub mod Release
pub mod Options
use consulx.Prelude.{ℕ, Bool, List, Option, Text}
use consulx.Prelude.Dict.{Dict}
use consulx.Discovery.Instance.{ServiceInstance}
use consulx.Discovery.Snapshot.{Snapshot}

-- The built-in pickers with their state, and a picker of the application, which keeps none.
pub data Picker : Type 0 where
  round_robin : ℕ → Picker
  random weighted : Picker
  custom : (List ServiceInstance → ServiceInstance) → Picker

-- The state kept for one service, less its watch, which runs on its own: a call reads it through the
-- environment (`Calls`). The zero snapshot of `last` is the nil pointer.
pub record Entry : Type 0 where
  pub picker : Picker
  pub last_used : ℕ
  pub last : Snapshot
  pub last_seen : ℕ
  pub ejection : Dict ℕ

pub record Balancer : Type 0 where
  pub grace : ℕ
  pub idle : ℕ
  pub eject : ℕ
  pub strategy : Picker  -- what `NewPicker` makes
  pub services : Dict Entry
  pub closed : Bool
  pub ctx_done : Bool
  pub janitor : Bool  -- whether the janitor goroutine was started

pub data Error : Type 0 where
  err_closed : Error
  not_found : Text → Error
  ctx_err : Error
  watch_failed : Text → Error
  panicked : Error  -- an index out of range

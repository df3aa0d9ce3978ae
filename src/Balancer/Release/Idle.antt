-- ===== src/Balancer/Release/Idle.antt =====
-- The janitor releases exactly the services that nobody used for the idle timeout.
use consulx.Prelude.{
  ℕ, true, [], ◌∷◌, Option, none, some, Text, ◌≡◌, refl, arith, text_eq_iff, if◌then◌else◌,
  is_empty,
}
use consulx.Prelude.Dict.{Dict, NoRepeat, lookup-Absent, lookup}
use consulx.Balancer.{Entry, Balancer}
use consulx.Balancer.Release.{is_idle, active, unused, release_idle}

unfoldable pub unless_idle : ℕ → ℕ → Option Entry → Option Entry
unless_idle idle now none = none
unless_idle idle now (some e) = if is_idle idle now e then none else some e

lookup-active :
    (idle now : ℕ) (k : Text) (m : Dict Entry)
    → NoRepeat m
    → lookup k (active idle now m) ≡ unless_idle idle now (lookup k m)
unfolding lookup active unless_idle
lookup-active idle now k [] n = refl
lookup-active idle now k ((j, e) ∷ m) n =
    ground (arith, lookup-active idle now k m n.1, text_eq_iff j k, lookup-Absent j m n.0)

-- With nothing idle every service stays.
unused-active :
    (idle now : ℕ) (m : Dict Entry) → is_empty (unused idle now m) ≡ true → active idle now m ≡ m
unfolding unused active
unused-active idle now [] h = refl
unused-active idle now ((j, e) ∷ m) h = ground (arith, unused-active idle now m)

-- After a tick at `now`, a service is watched exactly if it was and was used less than the idle
-- timeout ago, with the same entry. No service stands twice in the map.
pub release_idle-lookup :
    (b : Balancer) (now : ℕ) (service : Text)
    → NoRepeat b.services
    → lookup service (release_idle b now).0.services
      ≡ unless_idle b.idle now (lookup service b.services)
unfolding release_idle
release_idle-lookup b now service n =
    ground
      (arith, lookup-active b.idle now service b.services n, unused-active b.idle now b.services)

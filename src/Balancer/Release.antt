-- ===== src/Balancer/Release.antt =====
-- balancer/balancer.go: one tick of the janitor, and Close.
pub mod Idle
use consulx.Prelude.{ℕ, ◌+◌, Bool, true, List, [], ◌∷◌, Text, leb, if◌then◌else◌, is_empty}
use consulx.Prelude.Dict.{Dict, keys}
use consulx.Balancer.{Entry, Balancer}

-- `now - e.lastUsed >= b.idle`, where the clock may read less than `lastUsed`.
abbrev pub is_idle : ℕ → ℕ → Entry → Bool
is_idle idle now e = leb (e.last_used + idle) now

-- The loop over the services: those that stay, and the names of those whose watch is closed.
unfoldable pub active : ℕ → ℕ → Dict Entry → Dict Entry
active idle now [] = []
active idle now ((name, e) ∷ m) =
    let rest = active idle now m in if is_idle idle now e then rest else (name, e) ∷ rest

unfoldable pub unused : ℕ → ℕ → Dict Entry → List Text
unused idle now [] = []
unused idle now ((name, e) ∷ m) =
    let rest = unused idle now m in if is_idle idle now e then name ∷ rest else rest

-- One tick of `releaseIdle`: the balancer, and the services whose watches are then closed.
unfoldable pub release_idle : Balancer → ℕ → Balancer × List Text
unfolding active unused
release_idle b now =
    let idle = unused b.idle now b.services in
    (if is_empty idle then b else record b { services = active b.idle now b.services }, idle)

-- `Close`: the balancer, and the services whose watches are closed. It then waits for the janitor.
unfoldable pub close : Balancer → Balancer × List Text
close b = (record b { closed = true; ctx_done = true }, keys b.services)

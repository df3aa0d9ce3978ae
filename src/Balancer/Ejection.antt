-- ===== src/Balancer/Ejection.antt =====
-- balancer/ejection.go: passive outlier detection. The set maps a "host:port" to the time at which its
-- ejection ends; no set and an empty set are the same here, as in every test of it.
pub mod Available
pub mod Report
use consulx.Prelude.{
  ℕ, zero, suc, ◌+◌, Bool, true, false, ◌&&◌, ◌||◌, not, List, [], ◌∷◌, Option, none, some, Text,
  text_eq, ◌==◌, ltb, if◌then◌else◌, length, get_elem?, is_empty,
}
use consulx.Prelude.Dict.{Dict, lookup, insert}
use consulx.Discovery.Instance.{ServiceInstance, host_port}
use consulx.Balancer.{Entry, Balancer}

-- An instance whose ejection ends after `now`.
unfoldable pub ejected : Dict ℕ → ℕ → ServiceInstance → Bool
ejected set now i = elim (lookup (host_port i) set) [ none ↦ false | some until ↦ ltb now until ]

-- The loop of `available`, from index `k` on.
unfoldable pub kept : Dict ℕ → ℕ → ℕ → List ServiceInstance → List ℕ
kept set now k [] = []
kept set now k (i ∷ is) =
    let rest = kept set now (suc k) is in if ejected set now i then rest else k ∷ rest

-- `none` is the answer nil: use the list as it is.
unfoldable pub available : Dict ℕ → List ServiceInstance → ℕ → Option (List ℕ)
available set list now =
    if is_empty set
    then none
    else let keep = kept set now 0 list in
      if length keep == length list || length keep == 0 then none else some keep

unfoldable pub subset : List ServiceInstance → List ℕ → List ServiceInstance
subset list [] = []
subset list (k ∷ ks) =
    let rest = subset list ks in elim (get_elem? list k) [ none ↦ rest | some i ↦ i ∷ rest ]

-- The list that the picker is given.
unfoldable pub offered : Dict ℕ → List ServiceInstance → ℕ → List ServiceInstance
offered set list now = elim (available set list now) [ none ↦ list | some ks ↦ subset list ks ]

-- The loop of `ReportFailure` over the old set: what has not expired, but the target.
unfoldable pub unexpired : ℕ → Text → Dict ℕ → Dict ℕ
unexpired now target [] = []
unexpired now target ((k, v) ∷ old) =
    let rest = unexpired now target old in
    if ltb now v && not (text_eq k target) then (k, v) ∷ rest else rest

unfoldable pub report_failure : Balancer → Text → Text → ℕ → Balancer
report_failure b service target now =
    if b.eject == 0 || is_empty target then b else elim (lookup service b.services) [
      | none ↦ b
      | some e ↦
          let set = (target, now + b.eject) ∷ unexpired now target e.ejection in
          record b { services = insert service (record e { ejection = set }) b.services }
    ]

-- `ejectNow`: 0 when ejection is off.
unfoldable pub eject_now : Balancer → ℕ → ℕ
eject_now b now = if b.eject == 0 then 0 else now

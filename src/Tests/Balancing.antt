-- ===== src/Tests/Balancing.antt =====
-- The balancer on concrete services.
use consulx.Prelude.{
  ℕ, ◌+◌, ◌-◌, ◌<◌, ◌≤◌, ◌↔◌, List, [], ◌∷◌, none, some, codes, length, take, ◌≡◌, refl, arith,
  text_eq, ltb, if◌then◌else◌, is_empty,
}
use consulx.Prelude.Dict.{lookup, NoRepeat}
use consulx.Prelude.Predicates.{In}
use consulx.Discovery.Instance.{ServiceInstance, host_port, weight}
use consulx.Discovery.Snapshot.{SnapshotState, new_snapshot, instances}
use consulx.Balancer.{Entry}
use consulx.Balancer.Pick.{walk, total, share}
use consulx.Balancer.Pick.Range.{Draws}
use consulx.Balancer.Pick.Rotation.{indices, occurrences, round_robin_fair}
use consulx.Balancer.Pick.Share.{walk_share}
use consulx.Balancer.Ejection.{offered, ejected, report_failure, eject_now}
use consulx.Balancer.Ejection.Available.{healthy, offered_lem}
use consulx.Balancer.Ejection.Report.{report_failure_ejects}
use consulx.Balancer.Grace.{with_grace}
use consulx.Balancer.Grace.History.{observe, served, latest, observe-served}
use consulx.Balancer.Calls.{next, next_endpoint, next_in, ok}
use consulx.Balancer.Calls.Post.{IsBuiltIn}
use consulx.Balancer.Calls.Outcome.{candidates, to_endpoint, next_endpoint-next, next_in-candidates}
use consulx.Tests.{web3, webs, state_of, entry0, balancer0, balancer1, env0}

last_draw : Draws (λ n. n - 1)
last_draw n h = omega arith

round_robin_fair_example :
    occurrences 1 (indices (length webs) 4 webs) ≡ (if ltb 1 (length webs) then 1 else 0)
round_robin_fair_example = round_robin_fair 4 1 webs (omega arith) (omega arith)

walk_share_example : (walk 0 3 webs ≡ 1) ↔ ((total (take 1 webs) ≤ 3) × (3 < total (take 2 webs)))
unfolding total share text_eq weight
walk_share_example = walk_share webs 3 1 (omega arith)

offered_lem_example : offered ((codes "10.0.0.3:80", 50) ∷ []) webs 20 ≡ (
    if is_empty (healthy ((codes "10.0.0.3:80", 50) ∷ []) 20 webs)
    then webs
    else healthy ((codes "10.0.0.3:80", 50) ∷ []) 20 webs)
offered_lem_example = offered_lem ((codes "10.0.0.3:80", 50) ∷ []) webs 20

report_failure_ejects_example :
    (e' : Entry) × (lookup
        (codes "web")
        (report_failure balancer1 (codes "web") (codes "10.0.0.3:80") 20).services
      ≡ some e')
    × (ejected e'.ejection 49 web3 ≡ (
        if text_eq (codes "10.0.0.3:80") (host_port web3)
        then ltb 49 (20 + 30)
        else ejected entry0.ejection 49 web3))
    × NoRepeat e'.ejection
    × (lookup
          (codes "db")
          (report_failure balancer1 (codes "web") (codes "10.0.0.3:80") 20).services
        ≡ lookup (codes "db") balancer1.services)
unfolding lookup text_eq
report_failure_ejects_example =
    report_failure_ejects balancer1 (codes "web") (codes "db") (codes "10.0.0.3:80") entry0 20 49
      web3 (omega arith) (λ e. cc e) refl refl tt (omega arith)

abbrev states : ℕ → SnapshotState
states n = new_snapshot n (if ltb n 2 then webs else [])

states_tagged : (n : ℕ) → (states n).tag ≡ n
unfolding new_snapshot
states_tagged n = refl

abbrev history : List (ℕ × ℕ)
history = (1, 12) ∷ (2, 14) ∷ []

observe-served_example :
    (with_grace (observe states states_tagged 10 entry0 history) (some (states 2)) 10 20).1
    ≡ some
        (states (served states states_tagged 10 (latest states states_tagged 10 none history) 2 20))
observe-served_example =
    observe-served states states_tagged 10 history entry0 2 20 (omega arith) refl

balancer0-IsBuiltIn : IsBuiltIn balancer0
unfolding lookup
balancer0-IsBuiltIn = record { strategy = tt; entries = λ service e found. cc found }

next_endpoint-next_example :
    next_endpoint env0 balancer0 (codes "web") ≡ to_endpoint (next env0 balancer0 (codes "web"))
unfolding new_snapshot
next_endpoint-next_example =
    next_endpoint-next env0 balancer0 (codes "web") last_draw refl (λ b h. h) balancer0-IsBuiltIn

next_in-candidates_example :
    (i : ServiceInstance) × ((next_in env0
        (codes "web")
        (balancer1, ok (entry0, some (state_of 1)))).1
      ≡ ok i)
    × In i (candidates entry0 (eject_now balancer1 21) (instances (some (state_of 1))))
unfolding new_snapshot
next_in-candidates_example =
    next_in-candidates env0 (codes "web") balancer1 entry0 (some (state_of 1)) last_draw tt refl

-- ===== src/Balancer/Grace/History.antt =====
-- The grace period against the history of what a service's watch showed.
use consulx.Prelude.{
  ℕ, ◌+◌, ◌<◌, leb, Bool, List, [], ◌∷◌, Option, none, some, if◌then◌else◌, ◌≡◌, arith, is_empty,
  is_empty-length,
}
use consulx.Discovery.Snapshot.{SnapshotState}
use consulx.Balancer.{Entry}
use consulx.Balancer.Grace.{with_grace}

-- A watch publishes states, each with a tag of its own.
module _ (state : ℕ → SnapshotState) (tagged : (n : ℕ) → (state n).tag ≡ n) (grace : ℕ) where
  abbrev pub shows_nothing : ℕ → Bool
  shows_nothing n = is_empty (state n).list

  -- An entry after the calls that saw these tags at these clock readings, in this order.
  unfoldable pub observe : Entry → List (ℕ × ℕ) → Entry
  observe e [] = e
  observe e ((n, at) ∷ seen) = observe (with_grace e (some (state n)) grace at).0 seen

  -- The last tag of the history whose state is not empty, with its clock reading.
  unfoldable pub latest : Option (ℕ × ℕ) → List (ℕ × ℕ) → Option (ℕ × ℕ)
  latest found [] = found
  latest found ((n, at) ∷ seen) = latest (if shows_nothing n then found else some (n, at)) seen

  abbrev Holds : Entry → Option (ℕ × ℕ) → Type 0
  Holds e none = e.last ≡ none
  Holds e (some (n, at)) = (e.last ≡ some (state n)) × (e.last_seen ≡ at)

  observe_step-Holds :
      (n at : ℕ) (e : Entry) (found : Option (ℕ × ℕ))
      → 0 < grace
      → Holds e found
      → Holds
          (with_grace e (some (state n)) grace at).0
          (if shows_nothing n then found else some (n, at))
  unfolding with_grace
  observe_step-Holds n at e none g h = ground (arith, is_empty-length (state n).list, tagged n)
  observe_step-Holds n at e (some (m, t)) g h =
      ground (arith, is_empty-length (state n).list, tagged n, tagged m)

  observe-Holds :
      (seen : List (ℕ × ℕ)) (e : Entry) (found : Option (ℕ × ℕ))
      → 0 < grace
      → Holds e found
      → Holds (observe e seen) (latest found seen)
  unfolding observe latest
  observe-Holds [] e found g h = h
  observe-Holds ((n, at) ∷ seen) e found g h =
      observe-Holds seen (with_grace e (some (state n)) grace at).0
        (if shows_nothing n then found else some (n, at)) g (observe_step-Holds n at e found g h)

  -- What an answer is drawn from at `now` when the watch shows the state `n`.
  unfoldable pub served : Option (ℕ × ℕ) → ℕ → ℕ → ℕ
  served none n now = n
  served (some (m, at)) n now =
      if shows_nothing n then (if leb now (at + grace) then m else n) else n

  -- After any history of a service, a call is answered from the state that the watch shows, unless
  -- that is empty and the last state that was not was seen no longer than the grace period ago: then
  -- from that state. The grace period is positive, and each state has a tag of its own.
  pub observe-served :
      (seen : List (ℕ × ℕ)) (e : Entry) (n now : ℕ)
      → 0 < grace
      → e.last ≡ none
      → (with_grace (observe e seen) (some (state n)) grace now).1
        ≡ some (state (served (latest none seen) n now))
  observe-served seen e n now g h = at_latest (latest none seen) (observe-Holds seen e none g h)
    where
      at_latest :
          (found : Option (ℕ × ℕ))
          → Holds (observe e seen) found
          → (with_grace (observe e seen) (some (state n)) grace now).1
            ≡ some (state (served found n now))
      at_latest none k = unfold with_grace served in ground (arith, is_empty-length (state n).list)
      at_latest (some (m, at)) k =
          unfold with_grace served in ground (arith, is_empty-length (state n).list)

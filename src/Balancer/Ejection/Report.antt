-- ===== src/Balancer/Ejection/Report.antt =====
-- ReportFailure ejects the reported instance for the ejection window, and nobody else.
use consulx.Prelude.{
  ℕ, ◌+◌, ◌≤◌, ◌<◌, Bool, false, [], ◌∷◌, Option, none, some, Text, ◌≡◌, ◌≢◌, refl, arith, ltb,
  text_eq, text_eq_iff, if◌then◌else◌,
}
use consulx.Prelude.Dict.{
  Dict, Absent, NoRepeat, lookup-Absent, lookup, lookup-insert, lookup-insert_self,
}
use consulx.Discovery.Instance.{ServiceInstance, host_port}
use consulx.Balancer.{Entry, Balancer}
use consulx.Balancer.Ejection.{ejected, unexpired, report_failure}

abbrev active : ℕ → Option ℕ → Bool
active t none = false
active t (some until) = ltb t until

unexpired-Absent :
    (now : ℕ) (target k : Text) (m : Dict ℕ) → Absent k m → Absent k (unexpired now target m)
unfolding unexpired
unexpired-Absent now target k [] h = tt
unexpired-Absent now target k ((j, v) ∷ m) h =
    ground (arith, h.0, unexpired-Absent now target k m h.1)

-- Which ejections are active does not change by leaving out expired ones.
lookup-unexpired :
    (now t : ℕ) (target k : Text) (m : Dict ℕ)
    → now ≤ t
    → NoRepeat m
    → text_eq target k ≡ false
    → active t (lookup k (unexpired now target m)) ≡ active t (lookup k m)
unfolding lookup unexpired
lookup-unexpired now t target k [] le n h = refl
lookup-unexpired now t target k ((j, v) ∷ m) le n h = ground (
  arith,
  n,
  text_eq_iff j k,
  text_eq_iff j target,
  text_eq_iff target k,
  lookup-unexpired now t target k m le n.1 h,
  lookup-Absent j m n.0,
)

-- The ejections of a service after a report at `now`.
abbrev pub after_report : Dict ℕ → Text → ℕ → ℕ → Dict ℕ
after_report set target now window = (target, now + window) ∷ unexpired now target set

ejected-after_report :
    (set : Dict ℕ) (target : Text) (now window t : ℕ) (i : ServiceInstance)
    → NoRepeat set
    → now ≤ t
    → ejected (after_report set target now window) t i
      ≡ (if text_eq target (host_port i) then ltb t (now + window) else ejected set t i)
unfolding ejected lookup
ejected-after_report set target now window t i n le =
    ground (arith, lookup-unexpired now t target (host_port i) set le n)

unexpired-target : (now : ℕ) (target : Text) (m : Dict ℕ) → Absent target (unexpired now target m)
unfolding unexpired
unexpired-target now target [] = tt
unexpired-target now target ((j, v) ∷ m) =
    ground (arith, text_eq_iff j target, text_eq_iff target j, unexpired-target now target m)

unexpired-NoRepeat :
    (now : ℕ) (target : Text) (m : Dict ℕ) → NoRepeat m → NoRepeat (unexpired now target m)
unfolding unexpired
unexpired-NoRepeat now target [] n = tt
unexpired-NoRepeat now target ((j, v) ∷ m) n =
    ground (arith, unexpired-Absent now target j m n.0, unexpired-NoRepeat now target m n.1)

-- A report of `target` for a watched service, with ejection on, at any later moment `t`: the reported
-- address is ejected until the window has passed, every other instance is ejected exactly if it was
-- before, the other services keep their entries, and no address stands twice in the set. No address
-- stands twice in the set before.
pub report_failure_ejects :
    (b : Balancer) (service other target : Text) (e : Entry) (now t : ℕ) (i : ServiceInstance)
    → 0 < b.eject
    → target ≢ []
    → lookup service b.services ≡ some e
    → text_eq service other ≡ false
    → NoRepeat e.ejection
    → now ≤ t
    → (e' : Entry) × (lookup service (report_failure b service target now).services ≡ some e')
      × (ejected e'.ejection t i ≡ (
          if text_eq target (host_port i) then ltb t (now + b.eject) else ejected e.ejection t i))
      × NoRepeat e'.ejection
      × (lookup other (report_failure b service target now).services ≡ lookup other b.services)
unfolding report_failure
report_failure_ejects b service other [] e now t i on ne found differs n le = absurd (ne refl)
report_failure_ejects b service other (c ∷ target) e now t i on ne found differs n le =
    let set = after_report e.ejection (c ∷ target) now b.eject in
    let e' = record e { ejection = set } in
    (
      e',
      ground (arith, found, on, lookup-insert_self service e' b.services),
      ejected-after_report e.ejection (c ∷ target) now b.eject t i n le,
      (
        unexpired-target now (c ∷ target) e.ejection,
        unexpired-NoRepeat now (c ∷ target) e.ejection n,
      ),
      ground (arith, found, on, lookup-insert service other e' b.services, differs),
    )

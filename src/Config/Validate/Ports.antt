-- ===== src/Config/Validate/Ports.antt =====
-- config.go, `validatePorts`: the loop with its early return, against what it asks of the ports.
use consulx.Prelude.{
  ℕ, suc, ◌+◌, false, List, [], ◌∷◌, Text, text_eq, if◌then◌else◌, is_empty, ◌≡◌, ◌↔◌, refl, arith,
}
use consulx.Prelude.Predicates.{All}
use consulx.Prelude.Int.{pos, ◌≤ℤ◌}
use consulx.Config.{ServicePort}
use consulx.Config.Validate.{ports_from, validate_ports, seen}

abbrev pub IsNamed : ServicePort → Type 0
IsNamed p = (is_empty p.name ≡ false) × (pos 1 ≤ℤ p.port) × (p.port ≤ℤ pos 65535)

abbrev pub Differs : ServicePort → ServicePort → Type 0
Differs p q = text_eq p.name q.name ≡ false

abbrev pub Distinct : List ServicePort → Type 0
Distinct [] = Unit
Distinct (p ∷ ps) = All (Differs p) ps × Distinct ps

abbrev pub marked : List ServicePort → ℕ
marked [] = 0
marked (p ∷ ps) = if p.is_default then suc (marked ps) else marked ps

-- What Consul asks of the ports of a service that has any.
pub record IsPorts (ps : List ServicePort) : Type 0 where
  pub named : All IsNamed ps
  pub distinct : Distinct ps
  pub one_default : marked ps ≡ 1

-- What the loop asks, given the names before.
abbrev Fine : List Text → List ServicePort → Type 0
Fine names [] = Unit
Fine names (p ∷ ps) = IsNamed p × (seen p.name names ≡ false) × Fine (p.name ∷ names) ps

ports_from-Fine :
    (names : List Text) (d : ℕ) (ps : List ServicePort)
    → ports_from names d ps ≡ []
    → Fine names ps × (d + marked ps ≡ 1)
unfolding ports_from
ports_from-Fine names d [] h = ground arith
ports_from-Fine names d (p ∷ ps) h =
    ground (arith, ports_from-Fine (p.name ∷ names) (if p.is_default then suc d else d) ps)

Fine-ports_from :
    (names : List Text) (d : ℕ) (ps : List ServicePort)
    → Fine names ps
    → d + marked ps ≡ 1
    → ports_from names d ps ≡ []
unfolding ports_from
Fine-ports_from names d [] h e = ground arith
Fine-ports_from names d (p ∷ ps) h e =
    ground (arith, h, Fine-ports_from (p.name ∷ names) (if p.is_default then suc d else d) ps h.2)

abbrev New : List Text → ServicePort → Type 0
New names p = seen p.name names ≡ false

New-split :
    (x : Text) (names : List Text) (ps : List ServicePort)
    → All (New (x ∷ names)) ps
    → All (λ q. text_eq x q.name ≡ false) ps × All (New names) ps
New-split x names [] h = (tt, tt)
New-split x names (p ∷ ps) h = ground (arith, h.0, New-split x names ps h.1)

New-join :
    (x : Text) (names : List Text) (ps : List ServicePort)
    → All (λ q. text_eq x q.name ≡ false) ps
    → All (New names) ps
    → All (New (x ∷ names)) ps
New-join x names [] h k = tt
New-join x names (p ∷ ps) h k = (rw h.0 k.0, New-join x names ps h.1 k.1)

Fine-split :
    (names : List Text) (ps : List ServicePort)
    → Fine names ps
    → All IsNamed ps × Distinct ps × All (New names) ps
Fine-split names [] h = (tt, tt, tt)
Fine-split names (p ∷ ps) h =
    let rest = Fine-split (p.name ∷ names) ps h.2 in
    let new = New-split p.name names ps rest.2 in ((h.0, rest.0), (new.0, rest.1), (h.1, new.1))

Fine-join :
    (names : List Text) (ps : List ServicePort)
    → All IsNamed ps
    → Distinct ps
    → All (New names) ps
    → Fine names ps
Fine-join names [] h d n = tt
Fine-join names (p ∷ ps) h d n =
    (h.0, n.0, Fine-join (p.name ∷ names) ps h.1 d.1 (New-join p.name names ps d.0 n.1))

nothing_before : (ps : List ServicePort) → All (New []) ps
nothing_before [] = tt
nothing_before (p ∷ ps) = (refl, nothing_before ps)

-- The loop reports nothing exactly if every port has a name and a number from 1 to 65535, no two ports
-- have one name, and exactly one is marked as the default.
pub validate_ports_iff :
    (p : ServicePort) (ps : List ServicePort) → (validate_ports (p ∷ ps) ≡ []) ↔ IsPorts (p ∷ ps)
unfolding validate_ports
validate_ports_iff p ps = (
  λ h.
      let fine = ports_from-Fine [] 0 (p ∷ ps) h in
      let parts = Fine-split [] (p ∷ ps) fine.0 in
      record { named = parts.0; distinct = parts.1; one_default = omega (arith, fine.1) },
  λ ok.
      Fine-ports_from [] 0 (p ∷ ps)
        (Fine-join [] (p ∷ ps) ok.named ok.distinct (nothing_before (p ∷ ps)))
        (omega (arith, ok.one_default)),
)

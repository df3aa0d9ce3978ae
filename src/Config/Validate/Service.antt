-- ===== src/Config/Validate/Service.antt =====
-- config.go, `validate`: what the tests of the service, its metadata and its check ask.
use consulx.Prelude.{
  ℕ, ◌≤◌, Bool, true, false, ◌&&◌, ◌||◌, not, List, [], ◌∷◌, ◌++◌, Option, none, some, Text, codes,
  text_eq, text_eq_iff, if◌then◌else◌, is_empty, any_of, length, Bool-cases, ◌≡◌, ◌↔◌, ◌⊎◌, inl,
  inr, refl, sym, arith, ltb,
}
use consulx.Prelude.Predicates.{All, In}
use consulx.Prelude.Dict.{Dict}
use consulx.Prelude.Int.{ℤ, pos, ◌≤ℤ◌, is_zero_ℤ}
use consulx.NetAddr.{has_prefix}
use consulx.Config.{ServiceConfig, ServicePort, Weights, id_hostname_port, id_random}
use consulx.Config.Overlay.{entries}
use consulx.Config.Validate.{
  Problem, name_tests, validate_ports, validate_meta, meta_entries, meta_key, bad_weights,
  port_list, is_delimiter, is_meta_char, seen,
}
use consulx.Config.Validate.Sections.{Passes, IsScheme, is_scheme-IsScheme, IsScheme-is_scheme}
use consulx.Config.Validate.Ports.{IsPorts, validate_ports_iff}

pub append_nil_iff : {A : Type 0} (xs ys : List A) → (xs ++ ys ≡ []) ↔ ((xs ≡ []) × (ys ≡ []))
append_nil_iff [] ys = (λ h. (refl, h), λ h. h.1)
append_nil_iff (x ∷ xs) ys = (λ h. cc, λ h. cc (h.0))

any_of_iff : (p : ℕ → Bool) (xs : Text) → (any_of p xs ≡ false) ↔ All (λ x. p x ≡ false) xs
any_of_iff p [] = (λ h. tt, λ h. refl)
any_of_iff p (x ∷ xs) = elim (Bool-cases (p x)) [
  | inl e ↦ (λ h. absurd (ground (arith, e, h)), λ h. ground (arith, e, h.0))
  | inr e ↦
      (λ h. (e, (any_of_iff p xs).0 (ground (arith, e, h))), λ h. rw e ((any_of_iff p xs).1 h.1))
]

pub seen_iff : (t : Text) (xs : List Text) → (seen t xs ≡ true) ↔ In t xs
seen_iff t [] = (λ h. absurd (cc), λ h. absurd h)
seen_iff t (x ∷ xs) = elim (Bool-cases (text_eq x t)) [
  | inl e ↦ (λ h. inl (sym ((text_eq_iff x t).0 e)), λ h. rw e refl)
  | inr e ↦ (
    λ h. inr ((seen_iff t xs).0 (rw e at h)),
    λ h. elim h [
      | inl same ↦ absurd (ground (arith, text_eq_iff x t, e, same))
      | inr rest ↦ rw e ((seen_iff t xs).1 rest)
    ],
  )
]

-- A key and its value fit into Consul's metadata.
pub record IsPair (e : Text × Text) : Type 0 where
  pub key_length : (1 ≤ length e.0) × (length e.0 ≤ 128)
  pub not_reserved : has_prefix (codes "consul-") e.0 ≡ false
  pub characters : All (λ c. not (is_meta_char c) ≡ false) e.0
  pub value_length : length e.1 ≤ 512

meta_key_iff :
    (k : Text)
    → (meta_key k ≡ []) ↔ (
        (1 ≤ length k)
        × (length k ≤ 128)
        × (has_prefix (codes "consul-") k ≡ false)
        × (any_of (λ c. not (is_meta_char c)) k ≡ false))
unfolding meta_key
meta_key_iff [] = (λ h. ground arith, λ h. ground (arith, h.0))
meta_key_iff (c ∷ k) = (λ h. ground (arith, h), λ h. ground (arith, h))

when_iff : {A : Type 0} (b : Bool) (x : A) → ((if b then x ∷ [] else []) ≡ []) ↔ (b ≡ false)
when_iff true x = (λ h. cc, λ h. cc)
when_iff false x = (λ h. refl, λ h. refl)

IsPair-of : (e : Text × Text) → meta_key e.0 ≡ [] → ltb 512 (length e.1) ≡ false → IsPair e
IsPair-of e h v =
    let key = (meta_key_iff e.0).0 h in
    record {
      key_length = (key.0, key.1);
      not_reserved = key.2;
      characters = (any_of_iff (λ c. not (is_meta_char c)) e.0).0 key.3;
      value_length = ground (arith, v);
    }

meta_entries_iff : (m : Dict Text) → (meta_entries m ≡ []) ↔ All IsPair m
unfolding meta_entries
meta_entries_iff [] = (λ h. tt, λ h. refl)
meta_entries_iff ((k, v) ∷ m) =
    let rest = meta_entries_iff m in
    let outer =
      append_nil_iff (meta_key k)
        ((if ltb 512 (length v) then Problem.meta_value k ∷ [] else []) ++ meta_entries m) in
    let inner =
      append_nil_iff (if ltb 512 (length v) then Problem.meta_value k ∷ [] else [])
        (meta_entries m) in
    let value = when_iff (ltb 512 (length v)) (Problem.meta_value k) in
    (
      λ h.
          let behind = inner.0 (outer.0 h).1 in
          (IsPair-of (k, v) (outer.0 h).0 (value.0 behind.0), rest.0 behind.1),
      λ ok. outer.1 (
        (meta_key_iff k).1 (
          ok.0.key_length.0,
          ok.0.key_length.1,
          ok.0.not_reserved,
          (any_of_iff (λ c. not (is_meta_char c)) k).1 ok.0.characters,
        ),
        inner.1 (value.1 (ground (arith, ok.0.value_length)), rest.1 ok.1),
      ),
    )

pub record IsMeta (m : Dict Text) : Type 0 where
  pub pairs : length m ≤ 56
  pub entries : All IsPair m

pub IsMeta-iff : (m : Dict Text) → (validate_meta m ≡ []) ↔ IsMeta m
unfolding validate_meta
IsMeta-iff m =
    let parts =
      append_nil_iff (if ltb 56 (length m) then Problem.meta_pairs ∷ [] else []) (meta_entries m) in
    let size = when_iff (ltb 56 (length m)) Problem.meta_pairs in
    (
      λ h. record {
        pairs = ground (arith, size.0 (parts.0 h).0);
        entries = (meta_entries_iff m).0 (parts.0 h).1;
      },
      λ ok. parts.1 (size.1 (ground (arith, ok.pairs)), (meta_entries_iff m).1 ok.entries),
    )

abbrev pub IsWeights : Option Weights → Type 0
IsWeights none = Unit
IsWeights (some w) = (pos 1 ≤ℤ w.passing) × (pos 0 ≤ℤ w.warning)

pub weights_iff : (w : Option Weights) → (bad_weights w ≡ false) ↔ IsWeights w
unfolding bad_weights
weights_iff none = (λ h. tt, λ h. refl)
weights_iff (some w) = (λ h. ground (arith, h), λ h. ground (arith, h))

-- No ports are named, or they are in order and the single port is not set.
abbrev pub ArePorts : List ServicePort → ℤ → Type 0
ArePorts [] port = Unit
ArePorts (p ∷ ps) port = IsPorts (p ∷ ps) × (port ≡ pos 0)

abbrev pub exclusive : List ServicePort → ℤ → Bool
exclusive ports port = not (is_empty ports) && not (is_zero_ℤ port)

pub ports_iff :
    (ps : List ServicePort) (port : ℤ)
    → ((validate_ports ps ≡ []) × (exclusive ps port ≡ false)) ↔ ArePorts ps port
ports_iff [] port = (λ h. tt, λ h. (unfold validate_ports in refl, refl))
ports_iff (p ∷ ps) port =
    let loop = validate_ports_iff p ps in
    (λ h. (loop.0 h.0, ground (arith, h.1)), λ h. (loop.1 h.0, rw h.1 refl))

pub record IsService (auto_register : Bool) (s : ServiceConfig) : Type 0 where
  pub named : (auto_register && is_empty s.name) ≡ false
  pub name_form : All (λ c. is_delimiter c ≡ false) s.name
  pub id_form : All (λ c. is_delimiter c ≡ false) s.id
  pub id_strategy : (s.id_strategy ≡ id_hostname_port) ⊎ (s.id_strategy ≡ id_random)
  pub port : (pos 0 ≤ℤ s.port) × (s.port ≤ℤ pos 65535)
  pub scheme : IsScheme s.scheme
  pub ports : ArePorts (port_list s.ports) s.port
  pub meta : IsMeta (entries s.meta)
  pub weights : IsWeights s.weights

strategy_iff :
    (t : Text)
    → (not (text_eq t id_hostname_port || text_eq t id_random) ≡ false)
      ↔ ((t ≡ id_hostname_port) ⊎ (t ≡ id_random))
strategy_iff t = elim (Bool-cases (text_eq t id_hostname_port)) [
  | inl e ↦ (λ h. inl ((text_eq_iff t id_hostname_port).0 e), λ h. rw e refl)
  | inr e ↦ (
    λ h. inr ((text_eq_iff t id_random).0 (ground (arith, h, e))),
    λ h. elim h [
      | inl x ↦ absurd (ground (arith, text_eq_iff t id_hostname_port, x, e))
      | inr x ↦ ground (arith, text_eq_iff t id_random, x)
    ],
  )
]

pub name_iff :
    (auto : Bool) (s : ServiceConfig)
    → All Passes (name_tests auto s) ↔ (
        ((auto && is_empty s.name) ≡ false)
        × All (λ c. is_delimiter c ≡ false) s.name
        × All (λ c. is_delimiter c ≡ false) s.id
        × ((s.id_strategy ≡ id_hostname_port) ⊎ (s.id_strategy ≡ id_random))
        × ((pos 0 ≤ℤ s.port) × (s.port ≤ℤ pos 65535))
        × IsScheme s.scheme)
unfolding name_tests
name_iff auto s = (
  λ h. (
    h.0,
    (any_of_iff is_delimiter s.name).0 h.1.0,
    (any_of_iff is_delimiter s.id).0 h.1.1.0,
    (strategy_iff s.id_strategy).0 h.1.1.1.0,
    ground (arith, h.1.1.1.1.0),
    is_scheme-IsScheme s.scheme h.1.1.1.1.1.0,
  ),
  λ ok. (
    ok.0,
    (
      (any_of_iff is_delimiter s.name).1 ok.1,
      (
        (any_of_iff is_delimiter s.id).1 ok.2,
        (
          (strategy_iff s.id_strategy).1 ok.3,
          (ground (arith, ok.4), (IsScheme-is_scheme s.scheme ok.5, tt)),
        ),
      ),
    ),
  ),
)

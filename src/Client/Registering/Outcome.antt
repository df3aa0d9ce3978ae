-- ===== src/Client/Registering/Outcome.antt =====
-- What an attempt to register leaves behind on each of its branches.
use consulx.Prelude.{
  Bool, true, false, List, [], ◌∷◌, Option, none, some, if◌then◌else◌, is_empty, ◌≡◌, ◌≢◌, refl,
  arith, if_both, ℕ, ◌∙◌, Bool-cases, inl, inr,
}
use consulx.Client.Failures.{Failure, op_error, is_status, registration_failed}
use consulx.Client.Definition.{AgentService, check_features, definition_of}
use consulx.Client.Endpoints.{Location}
use consulx.Client.Registering.Sent.{
  Taken, check_features-Taken, Remembered, registration_of-Remembered, Filled, definition_of-Filled,
  Seen,
}
use consulx.Client.Registering.{
  Registrar, Config, Detected, version, unreadable, Located, at, nowhere, Attempt, Result,
  agent_version, registration_of, detect_failure, service_id, send, checked, define, register,
  deregister, shutdown,
}

-- What was sent in an attempt, and the state after it.
abbrev pub IsSent : Config → Registrar → Attempt → Location → Registrar → AgentService → Type 0
IsSent c r a loc state reg =
    (d : AgentService) × (reg ≡ a.hook d)
    × Filled c loc state d
    × Seen a.detected r state
    × Taken c.is_ipv6 (agent_version state) c.namespace c.partition reg

-- What an attempt of `r` leaves, by its error and by what was sent.
abbrev pub Post :
    Config → Registrar → Attempt → Registrar → Option Failure → Option AgentService → Type 0
Post c r a state none none = ⊥
Post c r a state none (some reg) =
    (loc : Location) × (a.located ≡ at loc)
    × IsSent c r a loc state reg
    × Remembered c loc reg state.current
    × (a.answer ≡ none)
Post c r a state (some e) none = state.current ≡ r.current
Post c r a state (some e) (some reg) =
    (loc : Location) × (a.located ≡ at loc)
    × IsSent c r a loc state reg
    × (state.current ≡ r.current)
    × (a.answer ≢ none)

abbrev Leaves : Config → Registrar → Attempt → Result → Type 0
Leaves c r a x = Post c r a x.state x.failure x.sent

nil_of {ℓ} : {A : Type ℓ} (xs : List A) → is_empty xs ≡ true → xs ≡ []
nil_of [] h = refl
nil_of (x ∷ xs) h = cc

send-Leaves :
    (c : Config) (r r' : Registrar) (a : Attempt) (loc : Location) (reg : AgentService)
    → a.located ≡ at loc
    → r'.current ≡ r.current
    → IsSent c r a loc r' reg
    → Leaves c r a (send c r' a loc reg)
unfolding send
send-Leaves c r r' a loc reg l h (d, sent, filled, seen, taken) = by_answer a.answer refl
  where
    remembering : Registrar
    remembering = record r' { current = registration_of c loc reg }

    kept : Filled c loc r' d → Filled c loc remembering d
    kept f = record {
      id = f.id;
      name = f.name;
      tags = f.tags;
      address = f.address;
      ports = f.ports;
      namespace = f.namespace;
      partition = f.partition;
    }

    still_seen : (v : Detected) → Seen v r r' → Seen v r remembering
    still_seen (version v) e = e
    still_seen (unreadable x) e = e

    by_answer :
        (o : Option Failure)
        → a.answer ≡ o
        → Leaves c r a (elim o [
          | some e ↦ record {
            state = r';
            failure = some (op_error (some registration_failed) e);
            sent = some reg;
          }
          | none ↦ record {
            state = record r' { current = registration_of c loc reg };
            failure = none;
            sent = some reg;
          }
        ])
    by_answer none e = (
      loc,
      l,
      (d, sent, kept filled, still_seen a.detected seen, taken),
      registration_of-Remembered c loc reg,
      e,
    )
    by_answer (some x) e = (loc, l, (d, sent, filled, seen, taken), h, λ n. cc)

checked-Leaves :
    (c : Config) (r r' : Registrar) (a : Attempt) (loc : Location) (d : AgentService)
    → a.located ≡ at loc
    → r'.current ≡ r.current
    → Filled c loc r' d
    → Seen a.detected r r'
    → Leaves c r a (checked c r' a loc (a.hook d))
unfolding checked
checked-Leaves c r r' a loc d l h f k =
    let missing = check_features c.is_ipv6 (agent_version r') c.namespace c.partition (a.hook d) in
    elim (Bool-cases (is_empty missing)) [
      | inl e ↦
          let taken =
            check_features-Taken c.is_ipv6 (agent_version r') c.namespace c.partition (a.hook d)
              (nil_of missing e) in
          rw e (send-Leaves c r r' a loc (a.hook d) l h (d, refl, f, k, taken))
      | inr e ↦ rw e h
    ]

service_id-current :
    (c : Config) (r : Registrar) (a : Attempt) (port : ℕ)
    → (service_id c r a port).0.current ≡ r.current
unfolding service_id
service_id-current c r a port = ground arith

service_id-agent :
    (c : Config) (r : Registrar) (a : Attempt) (port : ℕ)
    → (service_id c r a port).0.agent ≡ r.agent
unfolding service_id
service_id-agent c r a port = ground arith

Seen-agent : (v : Detected) (r s t : Registrar) → t.agent ≡ s.agent → Seen v r s → Seen v r t
Seen-agent (version v) r s t e h = e ∙ h
Seen-agent (unreadable x) r s t e h = e ∙ h

define-Leaves :
    (c : Config) (r r' : Registrar) (a : Attempt)
    → r'.current ≡ r.current
    → Seen a.detected r r'
    → Leaves c r a (define c r' a)
unfolding define
define-Leaves c r r' a h k = by_place a.located refl
  where
    by_place :
        (l : Located)
        → a.located ≡ l
        → Leaves c r a (elim l [
          | nowhere e ↦ record { state = r'; failure = some e; sent = none }
          | at loc ↦ checked c (service_id c r' a loc.port).0 a loc (
              a.hook (
                definition_of c.duration c.process c.service c.health a.ready
                  (service_id c r' a loc.port).1
                  loc))
        ])
    by_place (nowhere e) p = h
    by_place (at loc) p =
        checked-Leaves c r (service_id c r' a loc.port).0 a loc _ p
          (service_id-current c r' a loc.port ∙ h) (definition_of-Filled c loc r' a)
          (Seen-agent a.detected r r' (service_id c r' a loc.port).0
            (service_id-agent c r' a loc.port) k)

-- An attempt to register that succeeds has sent a definition that the agent did not refuse, and the client
-- then remembers the ID, the name and the check of what it sent, with the location of the attempt, as
-- registered. An attempt that fails leaves the registration as it was; if it has sent something, the
-- agent refused it. What is sent is what the hook makes of a definition with the name, the tags, the
-- ports, the namespace and the partition of the configuration, the address and the port of the location
-- (no port if there are several), and the configured ID, or the generated one that the client keeps. It
-- has several ports or an IPv6 address only if the agent is Consul 1.22 or later, a namespace or a
-- partition, or the client's, only if it is Consul Enterprise, each as far as its version is known: as
-- the attempt has read it, or from before if it may not; and it has no AI block.
pub register-Post :
    (c : Config) (r : Registrar) (a : Attempt)
    → Post c r a (register c r a).state (register c r a).failure (register c r a).sent
unfolding register
register-Post c r a = by_version a.detected refl
  where
    by_version :
        (d : Detected)
        → a.detected ≡ d
        → Leaves c r a (elim d [
          | version v ↦ define c (record r { agent = some v }) a
          | unreadable e ↦ if is_status e 403 then define c r a else record {
            state = r;
            failure = some (op_error (some registration_failed) (detect_failure e));
            sent = none;
          }
        ])
    by_version (version v) e = define-Leaves c r (record r { agent = some v }) a refl (rw e refl)
    by_version (unreadable x) e =
        if_both (Leaves c r a) (is_status x 403) (define-Leaves c r r a refl (rw e refl)) refl

-- Stop waits for the drain delay only after the agent has removed the service: deregistration was
-- asked for, there was no error, and the client no longer counts itself as registered.
pub shutdown-drains :
    (asked : Bool) (r : Registrar) (answer : Option Failure)
    → (shutdown asked r answer).2 ≡ true
    → (asked ≡ true)
      × ((shutdown asked r answer).1 ≡ none)
      × ((shutdown asked r answer).0.current.registered ≡ false)
unfolding shutdown deregister
shutdown-drains asked r answer h = ground (arith, h)

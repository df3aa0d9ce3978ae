-- ===== src/Client/Registering.antt =====
-- registration.go: one attempt to register, and the removal from the agent, with the shutdown steps of
-- lifecycle.go. What the attempt meets is a record: the answers of the agent, the endpoint, and the
-- application's hook.
pub mod Sent
pub mod Outcome
use consulx.Prelude.{
  ℕ, Bool, true, false, ◌&&◌, ◌||◌, not, List, [], ◌∷◌, Option, none, some, Text, codes,
  if◌then◌else◌, is_empty,
}
use consulx.Health.{Status}
use consulx.Compat.{Version, unknown, Feature}
use consulx.ServiceId.{hostname_port, random}
use consulx.Client.Failures.{
  Failure, op_error, is_status, registration_failed, deregistration_failed, unsupported_feature,
  not_registered, consul_unavailable,
}
use consulx.Client.Definition.{Service, Process, AgentService, check_features, definition_of}
use consulx.Client.Endpoints.{Location}
use consulx.Client.Checks.{HealthConfig, CheckType, AgentCheck}

pub record Registration : Type 0 where
  pub service_id : Text
  pub service_name : Text
  pub address : Text
  pub port : ℕ
  pub scheme : Text
  pub check_id : Text
  pub check_type : Option CheckType  -- `none` is the empty string
  pub registered : Bool

abbrev pub no_registration : Registration
no_registration = record {
  service_id = [];
  service_name = [];
  address = [];
  port = 0;
  scheme = [];
  check_id = [];
  check_type = none;
  registered = false;
}

-- The fields of the client that registration changes.
pub record Registrar : Type 0 where
  pub current : Registration
  pub agent : Option Version
  pub generated_id : Option Text

-- The configuration: `id` is `Service.ID`, and `namespace` and `partition` are the client's.
pub record Config : Type 0 where
  pub id : Text
  pub random_ids : Bool
  pub service : Service
  pub health : HealthConfig
  pub process : Process
  pub namespace : Text
  pub partition : Text
  pub is_ipv6 : Text → Bool
  pub duration : ℕ → Text

pub data Detected : Type 0 where
  version : Version → Detected
  unreadable : Failure → Detected

pub data Located : Type 0 where
  at : Location → Located
  nowhere : Failure → Located

pub record Attempt : Type 0 where
  pub detected : Detected
  pub located : Located
  pub ready : Status
  pub uuid : Text
  pub random_suffix : Text
  pub hook : AgentService → AgentService
  pub answer : Option Failure  -- of the agent, to the definition

-- `serviceID`: the ID is generated once.
unfoldable pub service_id : Config → Registrar → Attempt → ℕ → Registrar × Text
service_id c r a port = if not (is_empty c.id) then (r, c.id) else elim r.generated_id [
  | some id ↦ (r, id)
  | none ↦
      let hostname : Text = elim c.process.hostname [ none ↦ [] | some h ↦ h ] in
      let id =
        if c.random_ids
        then random a.uuid c.service.name
        else hostname_port a.random_suffix c.service.name hostname port in
      (record r { generated_id = some id }, id)
]

abbrev pub agent_version : Registrar → Version
agent_version r = elim r.agent [ none ↦ unknown | some v ↦ v ]

abbrev pub mark_lost : Registrar → Registrar
mark_lost r = record r { current = record (r.current) { registered = false } }

-- The state after an attempt, the error, and the definition that was sent.
pub record Result : Type 0 where
  pub state : Registrar
  pub failure : Option Failure
  pub sent : Option AgentService

abbrev fails : Registrar → Failure → Result
fails r e = record { state = r; failure = some e; sent = none }

-- What the client remembers of a definition.
unfoldable pub registration_of : Config → Location → AgentService → Registration
registration_of c loc reg = record {
  service_id = reg.id;
  service_name = reg.name;
  address = loc.address;
  port = loc.port;
  scheme = loc.scheme;
  check_id = elim reg.check [ none ↦ [] | some check ↦ check.check_id ];
  check_type = some c.health.check;
  registered = true;
}

send : Config → Registrar → Attempt → Location → AgentService → Result
unfolding registration_of
send c r a loc reg = elim a.answer [
  | some e ↦ record {
    state = r;
    failure = some (op_error (some registration_failed) e);
    sent = some reg;
  }
  | none ↦ record {
    state = record r { current = registration_of c loc reg };
    failure = none;
    sent = some reg;
  }
]

-- The definition after the hook, if the agent supports what it uses.
checked : Config → Registrar → Attempt → Location → AgentService → Result
unfolding send
checked c r a loc reg =
    if is_empty (check_features c.is_ipv6 (agent_version r) c.namespace c.partition reg)
    then send c r a loc reg
    else fails r (record { chain = unsupported_feature ∷ []; status = none })

-- `register` from `resolveEndpoint` on.
define : Config → Registrar → Attempt → Result
unfolding checked
define c r a = elim a.located [
  | nowhere e ↦ fails r e
  | at loc ↦
      let (r', id) = service_id c r a loc.port in
      checked c r' a loc
        (a.hook (definition_of c.duration c.process c.service c.health a.ready id loc))
]

-- `detectAgent` wraps its error.
abbrev pub detect_failure : Failure → Failure
detect_failure e = record e { chain = consul_unavailable ∷ e.chain }

unfoldable pub register : Config → Registrar → Attempt → Result
unfolding define
register c r a = elim a.detected [
  | version v ↦ define c (record r { agent = some v }) a
  | unreadable e ↦
      if is_status e 403
      then define c r a
      else fails r (op_error (some registration_failed) (detect_failure e))
]

-- `deregister`: the state, the error, and the ID that was sent; `answer` is the agent's.
unfoldable pub deregister : Registrar → Option Failure → Registrar × Option Failure × Option Text
deregister r answer =
    let id = r.current.service_id in
    if is_empty id then (r, none, none) else elim answer [
      | none ↦ (mark_lost r, none, some id)
      | some e ↦
          if is_status e 404
          then (mark_lost r, none, some id)
          else (r, some (op_error (some deregistration_failed) e), some id)
    ]

-- `Deregister`, the public method.
unfoldable pub deregister_now :
    Registrar → Option Failure → Registrar × Option Failure × Option Text
unfolding deregister
deregister_now r answer =
    if is_empty r.current.service_id
    then (r, some (record { chain = not_registered ∷ []; status = none }), none)
    else deregister r answer

-- `shutdown`: the state, the error, and whether it then waits for the drain delay.
unfoldable pub shutdown : Bool → Registrar → Option Failure → Registrar × Option Failure × Bool
unfolding deregister
shutdown deregister_on_shutdown r answer =
    if not deregister_on_shutdown || is_empty r.current.service_id
    then (r, none, false)
    else let (r', e, sent) = deregister r answer in (r', e, elim e [ none ↦ true | some x ↦ false ])

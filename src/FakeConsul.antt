-- ===== src/FakeConsul.antt =====
-- internal/fakeconsul/fakeconsul.go: the Consul agent that the tests of the library talk to, as a state
-- and its operations. A request body is what the JSON decoder makes of it, a counter does not wrap, and
-- an answer is its status code with what is written.
pub mod Reads
pub mod Serve
use consulx.Prelude.{
  ℕ, suc, ◌-◌, ◌+◌, Bool, true, false, ◌&&◌, ◌||◌, List, [], ◌∷◌, ◌++◌, Option, none, some, Text,
  codes, text_eq, if◌then◌else◌, is_empty, ltb, ◌==◌,
}
use consulx.Prelude.Dict.{Dict, lookup, insert, remove}
use consulx.Discovery.Instance.{ServiceEntry}

pub record TtlUpdate : Type 0 where
  pub check_id : Text
  pub status : Text
  pub output : Text

-- What the agent reads of an AgentServiceRegistration: a check is its ID and its TTL.
pub record Registration : Type 0 where
  pub id : Text
  pub name : Text
  pub check : Option (Text × Text)

-- `changes` counts how often the channel `changed` was closed; `fail_next` that is negative is 0.
pub record Agent : Type 0 where
  pub version : Text
  pub services : Dict Registration
  pub registers : ℕ
  pub deregisters : List Text
  pub ttl : List TtlUpdate
  pub maintenance : Dict Text
  pub tokens : List Text
  pub fail_all : ℕ
  pub hanging : Bool
  pub fail_next : ℕ
  pub forbid_self : Bool
  pub changes : ℕ
  pub health : Dict (List ServiceEntry)
  pub kv : Dict Text
  pub index : ℕ

unfoldable pub new_agent : Text → Agent
new_agent version = record {
  version = version;
  services = [];
  registers = 0;
  deregisters = [];
  ttl = [];
  maintenance = [];
  tokens = [];
  fail_all = 0;
  hanging = false;
  fail_next = 0;
  forbid_self = false;
  changes = 0;
  health = [];
  kv = [];
  index = 1;
}

abbrev pub notify : Agent → Agent
notify a = record a { changes = suc a.changes }

unfoldable pub set_failing : ℕ → Agent → Agent
set_failing code a = record a { fail_all = code }

unfoldable pub fail_next_registers : ℕ → Agent → Agent
fail_next_registers n a = record a { fail_next = n }

unfoldable pub forbid : Agent → Agent
forbid a = record a { forbid_self = true }

unfoldable pub set_hanging : Bool → Agent → Agent
set_hanging hang a = record a { hanging = hang }

unfoldable pub forget : Agent → Agent
forget a = notify (record a { services = [] })

-- The writes that tests make to the catalogue and the store, each of which raises the index.
pub data Write : Type 0 where
  set_health : Text → List ServiceEntry → Write
  bump_index : Write
  put_kv : Text → Text → Write
  delete_kv : Text → Write

unfoldable pub written : Write → Agent → Agent
written (set_health service es) a = record a { health = insert service es a.health }
written bump_index a = a
written (put_kv key v) a = record a { kv = insert key v a.kv }
written (delete_kv key) a = record a { kv = remove key a.kv }

unfoldable pub write : Write → Agent → Agent
unfolding written
write w a = let b = written w a in notify (record b { index = suc b.index })

-- The body of a request to register: `none` in the last place is a body that does not fit the type.
pub data Body : Type 0 where
  undecodable : Body
  decoded : Bool → Bool → Option Registration → Body  -- has "Ports", has "AI"

-- `versionLess`; `scan` is `Sscanf` with "%d.%d".
unfoldable pub version_less : (Text → Option (ℕ × ℕ)) → Text → ℕ → ℕ → Bool
version_less scan v major minor = elim (scan v) [
  | none ↦ false
  | some (ma, mi) ↦ ltb ma major || (ma == major && ltb mi minor)
]

abbrev or_id : Registration → Registration
or_id r = if is_empty r.id then record r { id = r.name } else r

-- The registration is stored.
store : Registration → Agent → Agent × ℕ
store r a = (
  notify (record a {
    services = insert (or_id r).id (or_id r) a.services;
    registers = suc a.registers;
  }),
  200,
)

accept : (Text → Option (ℕ × ℕ)) → Body → Agent → Agent × ℕ
unfolding store
accept scan undecodable a = (a, 400)
accept scan (decoded ports ai none) a = (a, 400)
accept scan (decoded ports ai (some r)) a =
    if ports && version_less scan a.version 1 22 || (ai || is_empty r.name)
    then (a, 400)
    else store r a

unfoldable pub register : (Text → Option (ℕ × ℕ)) → Body → Agent → Agent × ℕ
unfolding accept
register scan body a =
    if ltb 0 a.fail_next
    then (record a { fail_next = a.fail_next - 1 }, 500)
    else accept scan body a

known : {A : Type 0} → Option A → Bool
known none = false
known (some x) = true

unfoldable pub deregister : Text → Agent → Agent × ℕ
unfolding known
deregister id a =
    if known (lookup id a.services)
    then (
      notify
          (record a { services = remove id a.services; deregisters = a.deregisters ++ (id ∷ []) }),
      200,
    )
    else (a, 404)

unfoldable pub set_maintenance : Text → Bool → Text → Agent → Agent × ℕ
unfolding known
set_maintenance id enable reason a =
    if known (lookup id a.services)
    then (
      record a {
        maintenance = if enable then insert id reason a.maintenance else remove id a.maintenance;
      },
      200,
    )
    else (a, 404)

has_ttl : Text → Option (Text × Text) → Bool
has_ttl check_id none = false
has_ttl check_id (some (id, ttl)) = text_eq id check_id && (if is_empty ttl then false else true)

-- The loop over the services.
any_ttl : Text → Dict Registration → Bool
unfolding has_ttl
any_ttl check_id [] = false
any_ttl check_id ((id, r) ∷ rest) = has_ttl check_id r.check || any_ttl check_id rest

unfoldable pub update_ttl : Text → Text → Text → Agent → Agent × ℕ
unfolding any_ttl
update_ttl check_id status output a =
    if any_ttl check_id a.services
    then (
      record a {
        ttl = a.ttl ++ (record { check_id = check_id; status = status; output = output } ∷ []);
      },
      200,
    )
    else (a, 404)

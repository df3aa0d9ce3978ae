-- ===== src/Client/Registering/Sent.antt =====
-- registration.go: what holds of a definition that was sent, and of what the client remembers of it.
use consulx.Prelude.{
  ℕ, ◌≤◌, ◌<◌, Bool, true, false, ◌||◌, not, List, [], ◌∷◌, ◌++◌, Option, none, some, Text,
  if◌then◌else◌, is_empty, any_of, ◌≡◌, ◌⊎◌, inl, inr, refl, arith, Bool-cases,
}
use consulx.Compat.{
  Version, is_unknown, Feature, multi_port, ipv6_address, namespaces, partitions, ai_service,
  at_least, supports,
}
use consulx.Client.Definition.{
  AgentService, check_features, unsupported, needed, need, definition_of,
}
use consulx.Client.Endpoints.{Location}
use consulx.Client.Registering.{
  Registrar, Registration, Config, Detected, version, unreadable, Attempt, service_id,
  registration_of,
}

-- Consul 1.22 or later, as far as is known.
abbrev pub IsRecent : Version → Type 0
IsRecent v = (is_unknown v ≡ true) ⊎ (1 < v.major) ⊎ ((v.major ≡ 1) × (22 ≤ v.minor))

-- Consul Enterprise, as far as is known.
abbrev pub IsEnterprise : Version → Type 0
IsEnterprise v = (is_unknown v ≡ true) ⊎ (v.enterprise ≡ true)

abbrev pub has_ipv6 : (Text → Bool) → AgentService → Bool
has_ipv6 is_ipv6 reg =
    is_ipv6 reg.address || any_of (λ ta. is_ipv6 ta.1.address) reg.tagged_addresses

-- The agent takes the definition: what it uses came with Consul 1.22 or with Consul Enterprise, and the
-- agent is such; and it has no AI block, which no version takes.
pub record Taken (is_ipv6 : Text → Bool) (v : Version) (namespace partition : Text)
    (reg : AgentService) : Type 0 where
  pub ports : (is_empty reg.ports ≡ true) ⊎ IsRecent v
  pub ipv6 : (has_ipv6 is_ipv6 reg ≡ false) ⊎ IsRecent v
  pub namespaces : ((is_empty reg.namespace ≡ true) × (is_empty namespace ≡ true)) ⊎ IsEnterprise v
  pub partitions : ((is_empty reg.partition ≡ true) × (is_empty partition ≡ true)) ⊎ IsEnterprise v
  pub no_ai : reg.ai ≡ false

at_least-IsRecent : (v : Version) → at_least v 1 22 0 ≡ true → IsRecent v
unfolding at_least
at_least-IsRecent v h = ground (arith, h)

recent : (v : Version) → supports v multi_port ≡ true → IsRecent v
unfolding supports
recent v h = elim (Bool-cases (is_unknown v)) [
  | inl e ↦ inl e
  | inr e ↦ at_least-IsRecent v (rw e at h)
]

enterprise : (v : Version) → supports v namespaces ≡ true → IsEnterprise v
unfolding supports
enterprise v h = ground (arith, h)

-- The first of the features that may be needed.
need-supported :
    (v : Version) (b : Bool) (f : Feature) (rest : List Feature)
    → unsupported v (need b f ++ rest) ≡ []
    → ((b ≡ false) ⊎ (supports v f ≡ true)) × (unsupported v rest ≡ [])
unfolding unsupported need
need-supported v false f rest h = (inl refl, h)
need-supported v true f rest h = elim (Bool-cases (supports v f)) [
  | inl e ↦ (inr e, rw e at h)
  | inr e ↦ absurd (ground (arith, h, e))
]

unused :
    {P : Type 0} (v : Version) (b : Bool) (f : Feature)
    → (supports v f ≡ true → P)
    → (b ≡ false) ⊎ (supports v f ≡ true)
    → (b ≡ false) ⊎ P
unused v b f k (inl e) = inl e
unused v b f k (inr e) = inr (k e)

pub check_features-Taken :
    (is_ipv6 : Text → Bool) (v : Version) (namespace partition : Text) (reg : AgentService)
    → check_features is_ipv6 v namespace partition reg ≡ []
    → Taken is_ipv6 v namespace partition reg
unfolding check_features needed supports
check_features-Taken is_ipv6 v namespace partition reg h =
    let many = not (is_empty reg.ports) in
    let ipv6 = has_ipv6 is_ipv6 reg in
    let spaced = not (is_empty reg.namespace) || not (is_empty namespace) in
    let parted = not (is_empty reg.partition) || not (is_empty partition) in
    let s1 = need-supported v many multi_port _ h in
    let s2 = need-supported v ipv6 ipv6_address _ s1.1 in
    let s3 = need-supported v spaced namespaces _ s2.1 in
    let s4 = need-supported v parted partitions _ s3.1 in
    record {
      ports = by_ports (unused v many multi_port (recent v) s1.0);
      ipv6 = unused v ipv6 ipv6_address (recent v) s2.0;
      namespaces = neither reg.namespace namespace (unused v spaced namespaces (enterprise v) s3.0);
      partitions = neither reg.partition partition (unused v parted partitions (enterprise v) s4.0);
      no_ai = no_block reg.ai s4.1;
    }
  where
    by_ports :
        (not (is_empty reg.ports) ≡ false) ⊎ IsRecent v → (is_empty reg.ports ≡ true) ⊎ IsRecent v
    by_ports (inl e) = inl (ground (arith, e))
    by_ports (inr k) = inr k

    neither :
        (s t : Text)
        → ((not (is_empty s) || not (is_empty t)) ≡ false) ⊎ IsEnterprise v
        → ((is_empty s ≡ true) × (is_empty t ≡ true)) ⊎ IsEnterprise v
    neither s t (inl e) = inl (ground (arith, e), ground (arith, e))
    neither s t (inr k) = inr k

    no_block : (b : Bool) → unsupported v (need b ai_service) ≡ [] → b ≡ false
    no_block false e = refl
    no_block true e = unfold unsupported in unfold need in unfold supports in cc

-- What the client remembers of a registration: what was sent, and where the instance is reached.
pub record Remembered (c : Config) (loc : Location) (reg : AgentService) (m : Registration)
    : Type 0 where
  pub service_id : m.service_id ≡ reg.id
  pub service_name : m.service_name ≡ reg.name
  pub address : m.address ≡ loc.address
  pub port : m.port ≡ loc.port
  pub scheme : m.scheme ≡ loc.scheme
  pub check_id : m.check_id ≡ elim reg.check [ none ↦ [] | some check ↦ check.check_id ]
  pub check_type : m.check_type ≡ some c.health.check
  pub registered : m.registered ≡ true

pub registration_of-Remembered :
    (c : Config) (loc : Location) (reg : AgentService)
    → Remembered c loc reg (registration_of c loc reg)
unfolding registration_of
registration_of-Remembered c loc reg = record {
  service_id = refl;
  service_name = refl;
  address = refl;
  port = refl;
  scheme = refl;
  check_id = refl;
  check_type = refl;
  registered = refl;
}

-- The definition before the hook, by the configuration and the location; its ID is the one that was
-- configured, or the one that the client keeps for its further attempts.
pub record Filled (c : Config) (loc : Location) (state : Registrar) (d : AgentService)
    : Type 0 where
  pub id :
      ((is_empty c.id ≡ false) × (d.id ≡ c.id))
      ⊎ ((is_empty c.id ≡ true) × (state.generated_id ≡ some d.id))
  pub name : d.name ≡ c.service.name
  pub tags : d.tags ≡ c.service.tags
  pub address : d.address ≡ loc.address
  pub ports :
      ((c.service.ports ≡ []) × (d.port ≡ loc.port) × (d.ports ≡ []))
      ⊎ ((is_empty c.service.ports ≡ false) × (d.port ≡ 0) × (d.ports ≡ c.service.ports))
  pub namespace : d.namespace ≡ c.service.namespace
  pub partition : d.partition ≡ c.service.partition

-- The version that the attempt has read, or the one from before.
abbrev pub Seen : Detected → Registrar → Registrar → Type 0
Seen (version v) r state = state.agent ≡ some v
Seen (unreadable e) r state = state.agent ≡ r.agent

service_id-kept :
    (c : Config) (r : Registrar) (a : Attempt) (port : ℕ)
    → ((is_empty c.id ≡ false) × ((service_id c r a port).1 ≡ c.id))
      ⊎ ((is_empty c.id ≡ true)
          × ((service_id c r a port).0.generated_id ≡ some (service_id c r a port).1))
unfolding service_id
service_id-kept c r a port = elim (Bool-cases (is_empty c.id)) [
  | inl e ↦ inr (e, at_generated r.generated_id refl e)
  | inr e ↦ inl (e, ground (arith, e))
]
  where
    at_generated :
        (o : Option Text)
        → r.generated_id ≡ o
        → is_empty c.id ≡ true
        → (service_id c r a port).0.generated_id ≡ some (service_id c r a port).1
    at_generated none g e = ground (arith, g, e)
    at_generated (some id) g e = ground (arith, g, e)

pub definition_of-Filled :
    (c : Config) (loc : Location) (r : Registrar) (a : Attempt)
    → Filled c loc (service_id c r a loc.port).0 (
        definition_of c.duration c.process c.service c.health a.ready
          (service_id c r a loc.port).1
          loc)
unfolding definition_of
definition_of-Filled c loc r a = record {
  id = service_id-kept c r a loc.port;
  name = refl;
  tags = refl;
  address = refl;
  ports = by_ports c.service.ports;
  namespace = refl;
  partition = refl;
}
  where
    by_ports :
        {A : Type 0} (ps : List A)
        → ((ps ≡ []) × ((if is_empty ps then loc.port else 0) ≡ loc.port) × (ps ≡ []))
          ⊎ ((is_empty ps ≡ false) × ((if is_empty ps then loc.port else 0) ≡ 0) × (ps ≡ ps))
    by_ports [] = inl (refl, refl, refl)
    by_ports (p ∷ ps) = inr (refl, refl, refl)

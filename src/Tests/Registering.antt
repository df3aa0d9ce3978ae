-- ===== src/Tests/Registering.antt =====
-- Registration, endpoints and interfaces on concrete inputs.
use consulx.Prelude.{
  ℕ, Option, true, false, List, [], ◌∷◌, none, some, Text, codes, text_eq, if◌then◌else◌, ◌≡◌, refl,
}
use consulx.Prelude.Dict.{Dict, lookup}
use consulx.Discovery.Instance.{ServiceEntry, from_entry}
use consulx.Health.{up}
use consulx.NetAddr.{Ip, Interface, Filter}
use consulx.Client.Endpoints.{Source, resolve_address, usable}
use consulx.Client.Endpoints.Sources.{first_address}
use consulx.Client.Endpoints.Sources.Order.{IsOutcome, first_address-IsOutcome}
use consulx.Client.Endpoints.First.{Reachable, resolve_address-Reachable}
use consulx.Client.Failures.{Failure, op_error}
use consulx.Client.Definition.{Service, Process, build_meta}
use consulx.Client.Endpoints.{Location}
use consulx.Client.Checks.{HealthConfig, check_ttl}
use consulx.Client.Definition.Meta.{build_meta-from_entry}
use consulx.Client.Registering.{
  Registrar, Config, unreadable, at, Attempt, register, no_registration,
}
use consulx.Client.Registering.Outcome.{Post, register-Post}
use consulx.Client.Lifecycle
use consulx.Client.Upkeep
use consulx.Client.Upkeep.Outage.{after, in_outage, outage-reported}
use consulx.Tests.{web1}

abbrev refused : Failure
refused = record { chain = []; status = none }

abbrev service0 : Service
service0 = record {
  name = codes "orders";
  tags = [];
  meta = (codes "zone", codes "eu") ∷ [];
  disable_auto_meta = false;
  version = codes "1.2";
  environment = [];
  zone = codes "us";
  ports = [];
  weights = none;
  tagged_addresses = [];
  enable_tag_override = false;
  namespace = [];
  partition = [];
}

abbrev process0 : Process
process0 = record {
  go_version = codes "go1.25";
  library_version = codes "v1";
  hostname = some (codes "h1");
}

abbrev location0 : Location
location0 = record { address = codes "10.0.0.7"; port = 8080; scheme = codes "https" }

abbrev entry_of : Dict Text → ServiceEntry
entry_of meta = record {
  node = web1.node;
  service = record {
    id = codes "orders-1";
    service = codes "orders";
    address = codes "10.0.0.7";
    port = 8080;
    ports = [];
    tags = [];
    meta = meta;
    tagged_addresses = [];
    weights = web1.weights;
    datacenter = codes "dc1";
    namespace = [];
    partition = [];
  };
  checks = [];
  aggregated = codes "passing";
}

build_meta-from_entry_example :
    (from_entry (entry_of (build_meta process0 service0 location0))).scheme
    ≡ (if text_eq location0.scheme (codes "https") then codes "https" else codes "http")
unfolding lookup text_eq
build_meta-from_entry_example =
    build_meta-from_entry process0 service0 location0
      (entry_of (build_meta process0 service0 location0)) (tt, tt) refl refl

abbrev health0 : HealthConfig
health0 = record {
  check = check_ttl;
  check_path = [];
  interval = 10;
  timeout = 5;
  ttl = 30;
  deregister_after = 60;
  method = [];
  header = [];
  body = [];
  tls_server_name = [];
  tls_skip_verify = false;
  use_tls = false;
  grpc_service = [];
  success_before_passing = 0;
  failures_before_warning = 0;
  failures_before_critical = 0;
}

abbrev config0 : Config
config0 = record {
  id = codes "orders-1";
  random_ids = false;
  service = service0;
  health = health0;
  process = process0;
  namespace = [];
  partition = [];
  is_ipv6 = λ host. false;
  duration = λ d. codes "10s";
}

abbrev attempt0 : Attempt
attempt0 = record {
  detected = unreadable (record { chain = []; status = some 403 });
  located = at location0;
  ready = up;
  uuid = [];
  random_suffix = [];
  hook = λ reg. reg;
  answer = none;
}

abbrev registrar0 : Registrar
registrar0 = record { current = no_registration; agent = none; generated_id = none }

register-Post_example :
    Post config0 registrar0 attempt0
      (register config0 registrar0 attempt0).state
      (register config0 registrar0 attempt0).failure
      (register config0 registrar0 attempt0).sent
register-Post_example = register-Post config0 registrar0 attempt0

abbrev registrar1 : Registrar
registrar1 = record registrar0 {
  current = record no_registration { service_id = codes "orders-1"; registered = true };
}

abbrev ip_of : Text → Ip
ip_of text = record {
  text = text;
  is6 = false;
  is4in6 = false;
  loopback = false;
  unspecified = false;
  link_local = false;
  multicast = false;
  private = true;
}

abbrev interfaces0 : List Interface
interfaces0 =
    record {
      name = codes "docker0";
      up = true;
      loop = false;
      addrs = ip_of (codes "172.17.0.1") ∷ [];
    }
    ∷ record { name = codes "eth0"; up = true; loop = false; addrs = ip_of (codes "10.0.0.7") ∷ [] }
    ∷ []

abbrev filter0 : Filter
filter0 = record { name = []; ipv6 = false; public = false }

abbrev sources0 : List Source
sources0 =
    record { name = codes "server"; answer = some (codes "localhost"); over = false }
    ∷ record { name = codes "interface"; answer = some (codes "10.0.0.7"); over = false }
    ∷ []

resolve_address-Reachable_example :
    Reachable
      (λ host. some (ip_of host))
      false
      (resolve_address (λ host. some (ip_of host)) false [] none sources0)
resolve_address-Reachable_example =
    resolve_address-Reachable (λ host. some (ip_of host)) false [] none sources0

first_address-IsOutcome_example :
    IsOutcome
      (usable (λ host. some (ip_of host)) false)
      sources0
      (first_address (usable (λ host. some (ip_of host)) false) sources0)
first_address-IsOutcome_example =
    first_address-IsOutcome (usable (λ host. some (ip_of host)) false) sources0

abbrev upkeep0 : Upkeep.Registrar
upkeep0 = record {
  state = Lifecycle.State.running;
  registered = true;
  failures = 0;
  reported = [];
  reconnects = 0;
}

abbrev no_retry : ℕ → Option ℕ
no_retry attempt = none

outage-reported_example :
    (after no_retry 30 upkeep0 (refused ∷ refused ∷ []) ≡ in_outage no_retry 30 upkeep0 refused 1)
    × (Upkeep.on_reply no_retry 30 (in_outage no_retry 30 upkeep0 refused 1) Upkeep.Reply.present
        ≡ (
          record upkeep0 { reported = op_error none refused ∷ []; reconnects = 1 },
          Upkeep.Next.watch_next,
        ))
outage-reported_example =
    outage-reported no_retry 30 upkeep0 refused (refused ∷ []) refl refl (refl, (refl, tt))

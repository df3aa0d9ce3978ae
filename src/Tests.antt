-- ===== src/Tests.antt =====
-- Concrete data for the tests: instances, balancers, and the world that a call meets.
pub mod Discovering
pub mod Balancing
pub mod Running
pub mod Registering
pub mod Configuring
pub mod Settings
pub mod Binding
use Prim.Native.String.{String}
use consulx.Prelude.{ℕ, ◌-◌, Bool, true, false, List, [], ◌∷◌, none, some, Text, codes}
use consulx.Prelude.Int.{pos}
use consulx.Discovery.Instance.{ServiceInstance}
use consulx.Discovery.Snapshot.{SnapshotState, new_snapshot}
use consulx.Balancer.{Balancer, Entry, round_robin}
use consulx.Balancer.Calls.{Env, is_ready}

abbrev pub instance_of : String → String → ℕ → ServiceInstance
instance_of id node weight = record {
  id = codes id;
  name = codes "web";
  address = codes "10.0.0.1";
  port = 80;
  ports = [];
  scheme = codes "http";
  tags = [];
  meta = [];
  tagged_addresses = [];
  weights = record { passing = pos weight; warning = pos 1 };
  datacenter = codes "dc1";
  namespace = [];
  partition = [];
  node = record {
    id = [];
    name = codes node;
    address = [];
    datacenter = [];
    tagged_addresses = [];
    meta = [];
  };
  status = codes "passing";
  checks = [];
}

abbrev pub web1 : ServiceInstance
web1 = instance_of "web1" "a" 3

abbrev pub web2 : ServiceInstance
web2 = instance_of "web2" "a" 1

abbrev pub web3 : ServiceInstance
web3 = record (instance_of "web3" "b" 2) { address = codes "10.0.0.3" }

abbrev pub webs : List ServiceInstance
webs = web1 ∷ web2 ∷ web3 ∷ []

abbrev pub state_of : ℕ → SnapshotState
state_of n = new_snapshot n webs

abbrev pub entry0 : Entry
entry0 = record { picker = round_robin 4; last_used = 7; last = none; last_seen = 0; ejection = [] }

abbrev pub balancer0 : Balancer
balancer0 = record {
  grace = 10;
  idle = 100;
  eject = 30;
  strategy = round_robin 0;
  services = [];
  closed = false;
  ctx_done = false;
  janitor = false;
}

abbrev pub balancer1 : Balancer
balancer1 = record balancer0 { services = (codes "web", entry0) ∷ (codes "db", entry0) ∷ [] }

abbrev pub env0 : Env
env0 = record {
  now = 20;
  later = 21;
  draw = λ n. n - 1;
  watch_error = λ service. none;
  arrival = λ attempt. is_ready;
  snapshot = some (state_of 1);
  meanwhile = λ b. b;
}

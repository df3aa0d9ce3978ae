-- ===== src/Client/Building/Effective.antt =====
-- client.go, `EffectiveConfig`: the copy that a client shows is a configuration like the client's own.
use consulx.Prelude.{
  ◌+◌, ◌≤◌, suc, Bool, List, [], ◌∷◌, Option, none, some, Text, length, ◌≡◌, refl, arith,
}
use consulx.Prelude.Dict.{Dict, insert}
use consulx.Prelude.Predicates.{All}
use consulx.Config.{Config, ServicePort}
use consulx.Config.Overlay.{copy, merge_map, entries}
use consulx.Config.Validate.{port_list}
use consulx.Config.Validate.Service.{IsMeta, IsPair, IsService}
use consulx.Config.Validate.Sound.{IsValid}
use consulx.Client.Building.{copied, effective_config}

insert-All :
    {V : Type 0} (P : Text × V → Type 0) (k : Text) (v : V) (m : Dict V)
    → P (k, v)
    → All P m
    → All P (insert k v m)
unfolding insert
insert-All P k v [] p h = (p, tt)
insert-All P k v ((j, w) ∷ m) p h = ground (arith, p, h.0, h.1, insert-All P k v m p h.1)

copy-All :
    {V : Type 0} (P : Text × V → Type 0) (src dst : Dict V)
    → All P src
    → All P dst
    → All P (copy src dst)
unfolding copy
copy-All P [] dst h k = k
copy-All P ((j, w) ∷ src) dst h k = copy-All P src (insert j w dst) h.1 (insert-All P j w dst h.0 k)

insert-length :
    {V : Type 0} (k : Text) (v : V) (m : Dict V) → length (insert k v m) ≤ suc (length m)
unfolding insert
insert-length k v [] = ground arith
insert-length k v ((j, w) ∷ m) = ground (arith, insert-length k v m)

copy-length : {V : Type 0} (src dst : Dict V) → length (copy src dst) ≤ length src + length dst
unfolding copy
copy-length [] dst = ground arith
copy-length ((j, w) ∷ src) dst =
    ground (arith, copy-length src (insert j w dst), insert-length j w dst)

merged-IsMeta : (m : Option (Dict Text)) → IsMeta (entries m) → IsMeta (entries (merge_map none m))
unfolding merge_map
merged-IsMeta none h = h
merged-IsMeta (some m) h = record {
  pairs = ground (arith, copy-length m [], h.pairs);
  entries = copy-All IsPair m [] h.entries tt;
}

copied-same : (ps : Option (List ServicePort)) → port_list (copied ps) ≡ port_list ps
unfolding copied
copied-same none = refl
copied-same (some []) = refl
copied-same (some (p ∷ ps)) = refl

effective-IsService :
    (auto : Bool) (c : Config)
    → IsService auto c.service
    → IsService auto (effective_config c).service
unfolding effective_config
effective-IsService auto c ok = record {
  named = ok.named;
  name_form = ok.name_form;
  id_form = ok.id_form;
  id_strategy = ok.id_strategy;
  port = ok.port;
  scheme = ok.scheme;
  ports = rw (copied-same c.service.ports) ok.ports;
  meta = merged-IsMeta c.service.meta ok.meta;
  weights = ok.weights;
}

-- The configuration that EffectiveConfig shows passes the validation again, with the certificates and the
-- key left out.
pub effective_config-IsValid :
    (url_ok : Text → Bool) (auto : Bool) (c : Config)
    → IsValid url_ok auto c
    → IsValid url_ok auto (effective_config c)
unfolding effective_config
effective_config-IsValid url_ok auto c ok = record {
  address = ok.address;
  consul = record {
    scheme = ok.consul.scheme;
    dial_timeout = ok.consul.dial_timeout;
    request_timeout = ok.consul.request_timeout;
    wait_time = ok.consul.wait_time;
    tls_files = ok.consul.tls_files;
    tls_pems = refl;
    http_auth = ok.consul.http_auth;
  };
  service = effective-IsService auto c ok.service;
  check = record { known = ok.check.known; has_path = ok.check.has_path; path = ok.check.path };
  endpoints = ok.endpoints;
  health = record {
    degraded = ok.health.degraded;
    interval = ok.health.interval;
    timeout = ok.health.timeout;
    ttl = ok.health.ttl;
    deregister = ok.health.deregister;
    flap_damping = ok.health.flap_damping;
  };
  retry = ok.retry;
  end = record {
    format = ok.end.format;
    start_timeout = ok.end.start_timeout;
    shutdown_timeout = ok.end.shutdown_timeout;
  };
}

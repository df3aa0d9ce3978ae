-- ===== src/Config/Validate/Sound.antt =====
-- config.go, `validate`: it reports nothing exactly for the configurations that satisfy what each
-- section asks.
use consulx.Prelude.{Bool, true, false, [], ◌∷◌, ◌++◌, Option, none, some, Text, ◌≡◌, ◌↔◌, refl, ap}
use consulx.Config.{Config, ServiceConfig}
use consulx.Config.Overlay.{entries}
use consulx.Config.Validate.{
  Problem, faults, consul_tests, name_tests, health_tests, retry_tests, check_tests, end_tests,
  validate_ports, validate_meta, validate_service, validate_endpoints, bad_weights, port_list,
  problems, validate, dereferenced, address_faults,
}
use consulx.Config.Address.{validate_consul_address}
use consulx.Config.Address.{AddressProblem}
use consulx.Config.Validate.Sections.{
  faults_iff, IsConsul, consul_tests-IsConsul, IsConsul-consul, IsHealth, health-IsHealth,
  IsHealth-health, IsRetry, retry-IsRetry, IsRetry-retry,
}
use consulx.Config.Validate.Service.{
  append_nil_iff, IsService, name_iff, ports_iff, IsMeta-iff, weights_iff, exclusive,
}
use consulx.Config.Validate.Checks.{
  IsCheck, IsCheck-iff, IsEndpoints, IsEndpoints-iff, IsEnd, IsEnd-iff,
}

one_fault : (b : Bool) (p : Problem) → (faults ((b, p) ∷ []) ≡ []) ↔ (b ≡ false)
unfolding faults
one_fault true p = (λ h. cc, λ h. cc)
one_fault false p = (λ h. refl, λ h. refl)

service_iff : (auto : Bool) (s : ServiceConfig) → (validate_service auto s ≡ []) ↔ IsService auto s
unfolding validate_service
service_iff auto s =
    let ports = port_list s.ports in
    let excl = faults ((exclusive ports s.port, Problem.ports_exclusive) ∷ []) in
    let meta = validate_meta (entries s.meta) in
    let wts = faults ((bad_weights s.weights, Problem.weights) ∷ []) in
    let a =
      append_nil_iff (faults (name_tests auto s))
        (validate_ports ports ++ (excl ++ (meta ++ wts))) in
    let b = append_nil_iff (validate_ports ports) (excl ++ (meta ++ wts)) in
    let c = append_nil_iff excl (meta ++ wts) in
    let d = append_nil_iff meta wts in
    let names = faults_iff (name_tests auto s) in
    let tests = name_iff auto s in
    let ex = one_fault (exclusive ports s.port) Problem.ports_exclusive in
    let we = one_fault (bad_weights s.weights) Problem.weights in
    (
      λ h.
          let n = tests.0 (names.0 (a.0 h).0) in
          let hb = b.0 (a.0 h).1 in
          let hc = c.0 hb.1 in
          let hd = d.0 hc.1 in
          record {
            named = n.0;
            name_form = n.1;
            id_form = n.2;
            id_strategy = n.3;
            port = n.4;
            scheme = n.5;
            ports = (ports_iff ports s.port).0 (hb.0, ex.0 hc.0);
            meta = (IsMeta-iff (entries s.meta)).0 hd.0;
            weights = (weights_iff s.weights).0 (we.0 hd.1);
          },
      λ ok.
          let p = (ports_iff ports s.port).1 ok.ports in
          a.1 (
            names.1
                (tests.1 (ok.named, ok.name_form, ok.id_form, ok.id_strategy, ok.port, ok.scheme)),
            b.1 (
              p.0,
              c.1 (
                ex.1 p.1,
                d.1 (
                  (IsMeta-iff (entries s.meta)).1 ok.meta,
                  we.1 ((weights_iff s.weights).1 ok.weights),
                ),
              ),
            ),
          ),
    )

-- A configuration in which every section is in order; `auto_register` is the pointer's value.
pub record IsValid (url_ok : Text → Bool) (auto_register : Bool) (c : Config) : Type 0 where
  pub address : validate_consul_address url_ok c.consul.address ≡ none
  pub consul : IsConsul c.consul
  pub service : IsService auto_register c.service
  pub check : IsCheck c.health
  pub endpoints : IsEndpoints c.health.endpoints
  pub health : IsHealth c.health
  pub retry : IsRetry c.retry
  pub end : IsEnd c

address_iff : (a : Option AddressProblem) → (address_faults a ≡ []) ↔ (a ≡ none)
unfolding address_faults
address_iff none = (λ h. refl, λ h. refl)
address_iff (some p) = (λ h. cc, λ h. cc)

problems_iff :
    (url_ok : Text → Bool) (auto : Bool) (c : Config)
    → (problems url_ok auto c ≡ []) ↔ IsValid url_ok auto c
unfolding problems
problems_iff url_ok auto c =
    let address = validate_consul_address url_ok c.consul.address in
    let f6 = faults (retry_tests c.retry) ++ faults (end_tests c) in
    let f5 = faults (health_tests c.health) ++ f6 in
    let f4 = validate_endpoints c.health.endpoints ++ f5 in
    let f3 = faults (check_tests c.health) ++ f4 in
    let f2 = validate_service auto c.service ++ f3 in
    let f1 = faults (consul_tests c.consul) ++ f2 in
    let a0 = append_nil_iff (address_faults address) f1 in
    let a1 = append_nil_iff (faults (consul_tests c.consul)) f2 in
    let a2 = append_nil_iff (validate_service auto c.service) f3 in
    let a3 = append_nil_iff (faults (check_tests c.health)) f4 in
    let a4 = append_nil_iff (validate_endpoints c.health.endpoints) f5 in
    let a5 = append_nil_iff (faults (health_tests c.health)) f6 in
    let a6 = append_nil_iff (faults (retry_tests c.retry)) (faults (end_tests c)) in
    let e0 = faults_iff (consul_tests c.consul) in
    let e3 = faults_iff (check_tests c.health) in
    let e5 = faults_iff (health_tests c.health) in
    let e6 = faults_iff (retry_tests c.retry) in
    let e7 = faults_iff (end_tests c) in
    (
      λ h.
          let h0 = a0.0 h in
          let h1 = a1.0 h0.1 in
          let h2 = a2.0 h1.1 in
          let h3 = a3.0 h2.1 in
          let h4 = a4.0 h3.1 in
          let h5 = a5.0 h4.1 in
          let h6 = a6.0 h5.1 in
          record {
            address = (address_iff address).0 h0.0;
            consul = consul_tests-IsConsul c.consul (e0.0 h1.0);
            service = (service_iff auto c.service).0 h2.0;
            check = (IsCheck-iff c.health).0 (e3.0 h3.0);
            endpoints = (IsEndpoints-iff c.health.endpoints).0 h4.0;
            health = health-IsHealth c.health (e5.0 h5.0);
            retry = retry-IsRetry c.retry (e6.0 h6.0);
            end = (IsEnd-iff c).0 (e7.0 h6.1);
          },
      λ ok. a0.1 (
        (address_iff address).1 ok.address,
        a1.1 (
          e0.1 (IsConsul-consul c.consul ok.consul),
          a2.1 (
            (service_iff auto c.service).1 ok.service,
            a3.1 (
              e3.1 ((IsCheck-iff c.health).1 ok.check),
              a4.1 (
                (IsEndpoints-iff c.health.endpoints).1 ok.endpoints,
                a5.1 (
                  e5.1 (IsHealth-health c.health ok.health),
                  a6.1 (e6.1 (IsRetry-retry c.retry ok.retry), e7.1 ((IsEnd-iff c).1 ok.end)),
                ),
              ),
            ),
          ),
        ),
      ),
    )

pub validate-problems :
    (url_ok : Text → Bool) (auto : Bool) (c : Config)
    → c.lifecycle.auto_register ≡ some auto
    → validate url_ok c ≡ some (problems url_ok auto c)
unfolding validate
validate-problems url_ok auto c set = ap (dereferenced (λ b. problems url_ok b c)) set

-- `validate` reports no problem exactly if every section of the configuration is in order: the agent,
-- the service with its ports, metadata and weights, the check, the endpoints, the delays and limits. The
-- defaults have set whether the service registers.
pub validate_iff :
    (url_ok : Text → Bool) (auto : Bool) (c : Config)
    → c.lifecycle.auto_register ≡ some auto
    → (validate url_ok c ≡ some []) ↔ IsValid url_ok auto c
validate_iff url_ok auto c set =
    let parts = problems_iff url_ok auto c in
    let whole = validate-problems url_ok auto c set in
    (λ h. parts.0 (cc (h, whole)), λ ok. cc (parts.1 ok, whole))

-- ===== src/Balancer/Options.antt =====
-- balancer/balancer.go and ejection.go: the options and New, with Client.Balancer of discover.go. The query
-- that WithQuery sets is a parameter of a watch, which is no part of the state here.
use consulx.Prelude.{ℕ, ◌*◌, ◌^◌, false, List, [], ◌∷◌, ◌≡◌, refl}
use consulx.Balancer.{Balancer, Picker}

pub data BalancerOption : Type 0 where
  with_query : BalancerOption
  with_stale_grace with_idle_timeout with_ejection : ℕ → BalancerOption

abbrev minutes : ℕ → ℕ
minutes n = n * 60 * 10 ^ 9

unfoldable pub default_idle_timeout : ℕ
default_idle_timeout = minutes 15

unfoldable pub default_stale_grace : ℕ
default_stale_grace = 10 * 10 ^ 9

unfoldable pub configure : BalancerOption → Balancer → Balancer
configure with_query b = b
configure (with_stale_grace d) b = record b { grace = d }
configure (with_idle_timeout d) b = record b { idle = d }
configure (with_ejection d) b = record b { eject = d }

-- The loop of `New`.
unfoldable pub configure_all : List BalancerOption → Balancer → Balancer
configure_all [] b = b
configure_all (o ∷ os) b = configure_all os (configure o b)

unfoldable pub new_balancer : Picker → List BalancerOption → Balancer
new_balancer strategy opts = configure_all opts (record {
  grace = 0;
  idle = default_idle_timeout;
  eject = 0;
  strategy = strategy;
  services = [];
  closed = false;
  ctx_done = false;
  janitor = false;
})

-- `Client.Balancer`.
unfoldable pub client_balancer : Picker → List BalancerOption → Balancer
client_balancer strategy opts = new_balancer strategy (with_stale_grace default_stale_grace ∷ opts)

-- The grace period that a list of options asks for, the last one that does.
abbrev pub grace_of : List BalancerOption → ℕ → ℕ
grace_of [] d = d
grace_of (with_stale_grace e ∷ os) d = grace_of os e
grace_of (with_query ∷ os) d = grace_of os d
grace_of (with_idle_timeout e ∷ os) d = grace_of os d
grace_of (with_ejection e ∷ os) d = grace_of os d

configure_all-grace :
    (os : List BalancerOption) (b : Balancer) → (configure_all os b).grace ≡ grace_of os b.grace
unfolding configure_all configure
configure_all-grace [] b = refl
configure_all-grace (with_stale_grace e ∷ os) b = configure_all-grace os (record b { grace = e })
configure_all-grace (with_query ∷ os) b = configure_all-grace os b
configure_all-grace (with_idle_timeout e ∷ os) b = configure_all-grace os (record b { idle = e })
configure_all-grace (with_ejection e ∷ os) b = configure_all-grace os (record b { eject = e })

-- A balancer of the client bridges an empty list for the default grace period, unless an option of the
-- caller, also one of zero, asks for another.
pub client_balancer-grace :
    (strategy : Picker) (opts : List BalancerOption)
    → (client_balancer strategy opts).grace ≡ grace_of opts default_stale_grace
unfolding client_balancer new_balancer configure_all configure
client_balancer-grace strategy opts =
    configure_all-grace opts
      (configure (with_stale_grace default_stale_grace) (new_balancer strategy []))

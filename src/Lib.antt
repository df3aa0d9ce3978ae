-- ===== src/Lib.antt =====
-- consulx: a Go library that registers a service in Consul, keeps it registered, discovers instances
-- of other services, balances calls over them, and aggregates the health of the application.
--
-- The parts, and how they interact. A discovery query (discovery/discovery.go) builds a request for
-- the official Consul client; a watch (discovery/watch.go) sends it again and again as a blocking
-- query, paced by internal/blocking/blocking.go, and publishes snapshots and coalesced events. The
-- balancer (balancer/) keeps one watch for each service that it is asked for, and picks an instance of
-- the watch's snapshot, less those that were reported as failing. The client's lifecycle
-- (lifecycle.go, reliability.go) registers the service and runs the registrar, which retries by
-- internal/backoff/backoff.go, uses an ID of internal/serviceid/serviceid.go, and asks
-- internal/compat/compat.go which fields the agent takes. endpoint.go decides with
-- internal/netaddr/netaddr.go where the instance is reached. The heartbeat reports what the health
-- registry (health/health.go) answers, which http.go also serves to Consul's HTTP checks.
-- Key-value configuration (kvconfig/) is read from folders of Consul's store, merged into one tree,
-- bound to a Go value by internal/bind/bind.go, and watched by the rules of blocking queries. The
-- configuration of the client itself (config.go, env.go, file.go, options.go) is laid in layers: the
-- environment, a file, Config values and options, with the defaults below them all, and validated.
-- The tests of the library run against an agent of their own (internal/fakeconsul/fakeconsul.go).
--
-- Which file models which part. Names are those of the source in snake_case.
--   Prelude      Shared helpers: Boolean tests, lists over native numbers, strings as byte lists,
--                maps as association lists, sorting, decimal digits.
--   Blocking     internal/blocking/blocking.go: NextIndex, Limiter.Wait (reserve), RequestTimeout.
--   Backoff      internal/backoff/backoff.go: NextDelay's limit, Retry. What the loop meets at each
--                attempt is a record (World).
--   Compat       internal/compat/compat.go: Parse, AtLeast, Supports.
--   ServiceId    internal/serviceid/serviceid.go: Sanitize, HostnamePort, Random.
--   Discovery    discovery/: Instance, Order and Equal for instance.go; Diff, Snapshot and Watch for
--                watch.go; Query for discovery.go. A watch is a record of the loop's variables and
--                the channels; one response is one call of `handle`.
--   Balancer     balancer/: Pick for the strategies and pickIndex, Grace for withGrace, Calls for
--                entry, current, Next, NextEndpoint and Resolve, Release for the janitor and Close,
--                Options for the options and New, and Ejection for ejection.go. A call takes the
--                balancer and what it reads of the world (Env), and gives the balancer after it with
--                its answer.
--   Health       health/health.go: Registry for the registry and its probes, Execution for the shared
--                call of a checker, as a step relation; Handler for health/handler.go.
--   NetAddr      internal/netaddr/netaddr.go: IsWildcard, IsLoopback, IsIPv6, IsVirtual, Select;
--                Listen for ParseListenAddress and net.SplitHostPort.
--   Config       config.go: the sections, with their zero values in Zero; Overlay, Defaults and
--                Validate for the functions of these names, Address for validateConsulAddress; Env for
--                env.go, Options for newSettings of options.go, with the options themselves, also
--                those of http.go, kv.go and registration.go, in Options/Each; Load for file.go,
--                Target for consulScheme and consulTarget of apiclient.go and resolver.go.
--   Bind         internal/bind/bind.go: trees, Go types and Go values; Keys for sameKey and lookup,
--                Fields for the tags of fields and the zero values, Scalars for scalar and setScalar,
--                Values for pointers, maps and lists, Assign for the binder. A panic is `none`.
--   KvConfig     kvconfig/: Contexts, decode, merge, load and subtree of kvconfig.go; Watching for
--                watch.go: one reload of a watcher, and one round of watchPrefix.
--   Client       Lifecycle for lifecycle.go and the state changes of reliability.go: the functions,
--                and a step relation of Start, Stop, the registrar and a reader of the errors.
--                Failures, Checks, Definition and Registering for registration.go: opError and
--                isPermanent; buildCheck; buildMeta and checkFeatures; register, deregister and
--                shutdown. Endpoints for endpoint.go: resolvePort and the chain of resolveEndpoint, with
--                the resolvers of resolver.go in Sources. Upkeep for the rounds of runRegistrar and the
--                heartbeat in reliability.go. Serving for http.go. Building for what New makes of the
--                settings: newAPIClient of apiclient.go, Config of kv.go, EffectiveConfig of client.go.
--   FakeConsul   internal/fakeconsul/fakeconsul.go, the agent of the library's tests: its state and
--                operations; Reads for the blocking reads over the events that end their waits; Serve
--                for the dispatch of a request.
--   Tests        Concrete data, and an application of each result to it.
--
-- Numbers. Durations, clock readings, ports, indexes and counters are native numbers that do not
-- wrap, but for the round-robin counter, which wraps at 2^64, and the time of a checker, whose
-- product with 4 does. A duration that is not positive is 0. The token bucket counts tokens times
-- the interval, in units of 2^-1074 nanoseconds, and by how much a call of the source rounds is an
-- argument. Weights are integers. In Config, durations, ports and counters are integers, since
-- validation meets negative ones, and the multiplier of the backoff is the number of units of
-- 2^-1074 in a finite float64. In Bind an integer type has its bits, and a value is within them.
--
-- Fuel. `itoa` has the number itself plus one as fuel, more than its digits. `retry` takes the number
-- of rounds as fuel; with a policy that limits the attempts, that limit is enough (Backoff.Endings).
--
-- Parameters. The random numbers, the clock, the answers of the official client, netip.ParseAddr,
-- strconv.Quote, time.ParseDuration, net/url, the lookup of a named port, the document decoders, the
-- delay of a retry policy, the rounding of the token bucket and the text of a number (floating
-- point), UnmarshalText, the hash of a registration, what the official client accepts, and a custom
-- picker or hook are arguments of the definitions. KvConfig takes the binding of a tree as an
-- argument.
--
-- Not modelled: HTTP, JSON, logging, metrics, timers and contexts as such (the case that fires is an
-- argument); what another goroutine sees between the store of a state and the exchange of the
-- pending event or change, in a watch of Discovery and of KvConfig, where one answer is one step; a
-- Go type that holds itself, an embedded struct that implements TextUnmarshaler, a list whose
-- element is a byte type that implements it (assign_slice takes it for bytes); the errors that
-- `report` drops in Upkeep, whose `reported` is what it is called with; letters beyond ASCII in keys
-- and blanks beyond ASCII in variables; the transport of the official client and the list of
-- balancers; the adapters under contrib/, examples and tests.
pub mod Prelude
pub mod Blocking
pub mod Backoff
pub mod Compat
pub mod ServiceId
pub mod NetAddr
pub mod Bind
pub mod Config
pub mod KvConfig
pub mod Discovery
pub mod Balancer
pub mod Health
pub mod Client
pub mod FakeConsul
pub mod Tests

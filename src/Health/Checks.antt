-- ===== src/Health/Checks.antt =====
-- internal/health/checks.go and internal/docker/health.go: the checks, the addresses that
-- `port-connect` dials, and the ports that `port-bound` and `uptime` look for. A check that
-- remembers when it first saw its subject returns its new memory, `none` being Go's zero time. Times
-- are nanoseconds. What a check reads of the host (sockets, a connect, a network's driver) is a
-- function that stands for the answers of one evaluation.
pub mod Endpoints
pub mod Serving
use tidewaiter.Common.{
  ℕ, ◌+◌, ◌-◌, ◌*◌, String, ◌+s◌, ◌≡◌, Bool, true, false, not, ◌&&◌, ◌||◌, Option, none, some, List,
  [], ◌∷◌, ◌++◌, leb, ◌==◌, if◌then◌else◌, str_eq, decimal, is_empty,
}
use text.Mathlib.Text.{starts_with}
use tidewaiter.Model.{
  Protocol, tcp, udp, HealthStatus, starting, healthy, unhealthy, no_health, PublishedPort,
  NetworkAttachment, is_tcp, same_protocol,
}
use tidewaiter.Health.{Result, passed, waiting, skipped, failed, Subject}

pub data ConnectOutcome : Type 0 where
  unreachable accepted refused : ConnectOutcome

-- The bound ports of a protocol, or `none` where they could not be read.
abbrev pub BoundPorts : Type 0
BoundPorts = Protocol → Option (List ℕ)

abbrev pub Prober : Type 0
Prober = String → ℕ → ConnectOutcome

pub record Input : Type 0 where
  pub subject : Subject
  pub ports : List PublishedPort
  pub bound : BoundPorts
  pub connect : Prober
  -- `none` for a subject with no networks.
  pub network_driver : Option (String → String)

pub record Endpoint : Type 0 where
  pub host : String
  pub port : ℕ
  pub truthful : Bool

unfoldable pub reachable_driver : String → Bool
reachable_driver driver = str_eq driver "bridge" || str_eq driver "host"

-- The TCP ports in scope.
abbrev pub tcp_ports : List PublishedPort → List PublishedPort
tcp_ports [] = []
tcp_ports (p ∷ ps) = if is_tcp p.protocol then p ∷ tcp_ports ps else tcp_ports ps

-- `network.IPAddress != "" && driver != nil && ReachableDriver(...)`.
abbrev pub is_reachable : Option (String → String) → NetworkAttachment → Bool
is_reachable none network = false
is_reachable (some driver) network =
    not (str_eq network.ip_address "") && reachable_driver (driver network.name)

-- The addresses on networks that the host can route to.
abbrev pub reachable_ips : Option (String → String) → List NetworkAttachment → List String
reachable_ips driver [] = []
reachable_ips driver (n ∷ ns) =
    if is_reachable driver n
    then n.ip_address ∷ reachable_ips driver ns
    else reachable_ips driver ns

-- Whether an endpoint of the list has that address and port: `seen[host:port]`.
abbrev pub dialled : String → ℕ → List Endpoint → Bool
dialled host port [] = false
dialled host port (e ∷ es) =
    if str_eq e.host host && e.port == port then true else dialled host port es

-- `add`: an address that is there already is not added again.
abbrev pub add : String → ℕ → Bool → List Endpoint → List Endpoint
add host port truthful found =
    if dialled host port found
    then found
    else found ++ record { host = host; port = port; truthful = truthful } ∷ []

-- The loop over the reachable addresses.
abbrev pub add_all : List String → ℕ → List Endpoint → List Endpoint
add_all [] port found = found
add_all (ip ∷ ips) port found = add_all ips port (add ip port true found)

-- The loop over the ports.
abbrev pub add_ports : Bool → List String → List PublishedPort → List Endpoint → List Endpoint
add_ports host_mode ips [] found = found
add_ports host_mode ips (p ∷ ps) found =
    let direct = if host_mode then add "127.0.0.1" p.container_port true found else found in
    add_ports host_mode ips ps
      (add "127.0.0.1" p.host_port false (add_all ips p.container_port direct))

-- `ClientEndpoints`; with no TCP port the loop adds nothing.
unfoldable pub client_endpoints :
    Subject → List PublishedPort → Option (String → String) → List Endpoint
unfolding reachable_driver
client_endpoints subject ports driver =
    add_ports (starts_with subject.network_mode "host") (reachable_ips driver subject.networks)
      (tcp_ports ports) []

-- What dialling the endpoints in order has shown: one accepted, or whether a truthful one refused.
pub data Dial : Type 0 where
  served : Dial
  unserved : Bool → Dial

abbrev pub dial : Prober → List Endpoint → Bool → Dial
dial connect [] truthful_refused = unserved truthful_refused
dial connect (e ∷ es) truthful_refused = elim (connect e.host e.port) [
  | accepted ↦ served
  | refused ↦ dial connect es (truthful_refused || e.truthful)
  | unreachable ↦ dial connect es truthful_refused
]

-- When the subject was first seen: now, if it was not before.
abbrev pub first_sight : Option ℕ → ℕ → ℕ
first_sight none now = now
first_sight (some seen) now = seen

abbrev pub second : ℕ
second = 1000000000

-- `now.Sub(firstSeen) >= seconds`. The clock is monotonic.
abbrev pub is_elapsed : ℕ → ℕ → ℕ → Bool
is_elapsed seconds first_seen now = leb (seconds * second) (now - first_seen)

refusal : ℕ → String
refusal seconds =
    "up for "
    +s decimal seconds
    +s "s but refuses connections at its own address - the container is not serving clients"

-- The end of `portConnect.Evaluate`, after the endpoints are dialled.
port_connect_verdict : ℕ → Dial → Option ℕ → ℕ → Result × Option ℕ
unfolding refusal
port_connect_verdict seconds served first_seen now = (passed, first_seen)
port_connect_verdict seconds (unserved truthful_refused) first_seen now =
    let seen = first_sight first_seen now in
    if not (is_elapsed seconds seen now)
    then (waiting, some seen)
    else if truthful_refused
    then (failed (refusal seconds), some seen)
    else (waiting, some seen)

-- `portConnect.Evaluate` at a time, over the memory of the check.
unfoldable pub port_connect : ℕ → ℕ → Input → Option ℕ → Result × Option ℕ
unfolding port_connect_verdict
port_connect seconds now input first_seen =
    let endpoints = client_endpoints input.subject input.ports input.network_driver in
    if is_empty endpoints
    then (skipped, first_seen)
    else port_connect_verdict seconds (dial input.connect endpoints false) first_seen now

-- The container ports in scope of one protocol.
abbrev pub wanted : Protocol → List PublishedPort → List ℕ
wanted protocol [] = []
wanted protocol (p ∷ ps) =
    if same_protocol p.protocol protocol
    then p.container_port ∷ wanted protocol ps
    else wanted protocol ps

abbrev pub holds_port : ℕ → List ℕ → Bool
holds_port port [] = false
holds_port port (q ∷ qs) = port == q || holds_port port qs

abbrev pub any_held : List ℕ → List ℕ → Bool
any_held [] listening = false
any_held (p ∷ ps) listening = holds_port p listening || any_held ps listening

-- `anyPortBound`: whether some port in scope is bound, or `none` where that could not be told.
abbrev pub any_port_bound_in : List Protocol → Input → Option Bool
any_port_bound_in [] input = some false
any_port_bound_in (protocol ∷ rest) input =
    let later = any_port_bound_in rest input in
    let ports = wanted protocol input.ports in
    if is_empty ports then later else elim (input.bound protocol) [
      | none ↦ none
      | some listening ↦ if any_held ports listening then some true else later
    ]

unfoldable pub any_port_bound : Input → Option Bool
any_port_bound = any_port_bound_in (tcp ∷ udp ∷ [])

-- `portBound.Evaluate`.
unfoldable pub port_bound : Input → Result
port_bound input =
    if is_empty input.ports
    then skipped
    else elim (any_port_bound input) [ some true ↦ passed | _ ↦ waiting ]

unserving : ℕ → String
unserving seconds =
    "up for "
    +s decimal seconds
    +s "s but no published port is bound - the container is not serving"

-- `uptime.Evaluate` at a time, over the memory of the check.
unfoldable pub uptime : ℕ → ℕ → Input → Option ℕ → Result × Option ℕ
unfolding unserving
uptime seconds now input first_seen =
    if not input.subject.running
    then (failed "the container exited or is restarting", first_seen)
    else let seen = first_sight first_seen now in
      (
        if not (is_elapsed seconds seen now)
            then waiting
            else if is_empty input.ports
            then passed
            else elim (any_port_bound input) [
              | none ↦ waiting
              | some true ↦ passed
              | some false ↦ failed (unserving seconds)
            ],
        some seen,
      )

-- `Verdict` of internal/docker/health.go: what Docker's health says, as a check's result.
unfoldable pub docker_verdict : HealthStatus → Result
docker_verdict healthy = passed
docker_verdict unhealthy = failed "Docker reports the container unhealthy"
docker_verdict starting = waiting
docker_verdict no_health = skipped

-- ===== src/Detect.antt =====
-- internal/detect: whether a workload is in use. The conntrack table, a process's sockets and
-- Docker's byte counts come from outside. A socket table arrives here as the entries that
-- `ParseProcNet` reads off its text; the text itself is not modelled.
pub mod Sessions
mod Examples
use tidewaiter.Common.{
  ℕ, suc, ◌+◌, ◌-◌, ◌*◌, String, Bool, true, false, not, ◌&&◌, ◌||◌, Option, none, some, List, [],
  ◌∷◌, Map, lookup, insert, ltb, leb, ◌==◌, if◌then◌else◌, str_eq, contains, is_empty,
}
use tidewaiter.Model.{Protocol, tcp, udp, PublishedPort, is_tcp, same_protocol}

pub record Result : Type 0 where
  pub in_use : Bool
  pub sessions : ℕ
  pub counted : Bool
  pub confident : Bool

-- Go's zero `Result`.
abbrev pub idle : Result
idle = record { in_use = false; sessions = 0; counted = false; confident = false }

-- `Busy`: could not tell.
abbrev pub cannot_tell : Result
cannot_tell = record { in_use = true; sessions = 0; counted = false; confident = false }

abbrev pub in_use_by : ℕ → Result
in_use_by n = record { in_use = true; sessions = n; counted = true; confident = true }

abbrev pub confident_idle : Result
confident_idle = record { in_use = false; sessions = 0; counted = false; confident = true }

-- The first loop of `Combine`.
abbrev pub any_in_use : List Result → Bool
any_in_use [] = false
any_in_use (r ∷ rs) = r.in_use || any_in_use rs

abbrev pub same_use : Bool → Bool → Bool
same_use true b = b
same_use false b = not b

-- The second loop, at the use that the first found.
abbrev pub tally : List Result → Result → Result
tally [] combined = combined
tally (r ∷ rs) combined = tally rs (record combined {
  confident = combined.confident || (same_use r.in_use combined.in_use && r.confident);
  counted = combined.counted || r.counted;
  sessions = if r.counted then combined.sessions + r.sessions else combined.sessions;
})

-- `Combine`.
unfoldable pub combine : List Result → Result
combine results = tally results (record idle { in_use = any_in_use results })

pub record ConntrackEntry : Type 0 where
  pub protocol : Protocol
  pub destination_port : ℕ
  pub assured : Bool
  -- "" for UDP.
  pub state : String

abbrev pub closing_tcp_states : List String
closing_tcp_states = "TIME_WAIT" ∷ "CLOSE_WAIT" ∷ "CLOSE" ∷ "CLOSING" ∷ "FIN_WAIT" ∷ "LAST_ACK" ∷ []

unfoldable pub is_active : ConntrackEntry → Bool
is_active entry = str_eq entry.state "" || not (contains closing_tcp_states entry.state)

-- `ports[key{protocol, port}]`.
abbrev pub publishes : List PublishedPort → Protocol → ℕ → Bool
publishes [] protocol port = false
publishes (p ∷ ps) protocol port =
    (same_protocol p.protocol protocol && p.host_port == port) || publishes ps protocol port

-- A live flow to one of the ports.
abbrev pub is_live : List PublishedPort → ConntrackEntry → Bool
is_live ports entry = publishes ports entry.protocol entry.destination_port && is_active entry

-- The loop of the detector: the flows, and the assured ones.
abbrev pub flows : List PublishedPort → List ConntrackEntry → ℕ × ℕ
flows ports [] = (0, 0)
flows ports (e ∷ es) =
    let (all_flows, assured) = flows ports es in
    if is_live ports e
    then (suc all_flows, if e.assured then suc assured else assured)
    else (all_flows, assured)

abbrev pub conntrack_verdict : ℕ × ℕ → Result
conntrack_verdict (all_flows, assured) =
    if ltb 0 assured
    then in_use_by assured
    else if ltb 0 all_flows
    then record confident_idle { in_use = true }
    else confident_idle

-- `conntrackDetector.InUse`.
unfoldable pub conntrack : List PublishedPort → List ConntrackEntry → Result
unfolding is_active
conntrack ports entries = conntrack_verdict (flows ports entries)

pub record ProcNetEntry : Type 0 where
  pub local_port : ℕ
  pub state : String

-- What a process's socket tables say; `none` is an error.
abbrev pub Netns : Type 0
Netns = ℕ → String → Option (List ProcNetEntry)

-- The container ports of the TCP ports.
abbrev pub tcp_container_ports : List PublishedPort → List ℕ
tcp_container_ports [] = []
tcp_container_ports (p ∷ ps) =
    if is_tcp p.protocol then p.container_port ∷ tcp_container_ports ps else tcp_container_ports ps

abbrev pub holds : List ℕ → ℕ → Bool
holds [] n = false
holds (m ∷ ms) n = m == n || holds ms n

abbrev pub established : List ℕ → List ProcNetEntry → ℕ
established ports [] = 0
established ports (e ∷ es) =
    let rest = established ports es in
    if str_eq e.state "01" && holds ports e.local_port then suc rest else rest

-- The loop over the two tables of TCP sockets; `none` is the first error.
abbrev pub established_in : Netns → ℕ → List ℕ → List String → Option ℕ
established_in netns pid ports [] = some 0
established_in netns pid ports (table ∷ tables) = elim (netns pid table) [
  | none ↦ none
  | some entries ↦ elim (established_in netns pid ports tables) [
    | none ↦ none
    | some n ↦ some (established ports entries + n)
  ]
]

-- `tcpDetector.InUse`; `none` is an error.
unfoldable pub tcp_sockets : List PublishedPort → ℕ → Netns → Option Result
tcp_sockets published pid netns =
    let ports = tcp_container_ports published in
    if is_empty ports
    then some idle
    else elim (established_in netns pid ports ("tcp" ∷ "tcp6" ∷ [])) [
      | none ↦ none
      | some n ↦ if ltb 0 n then some (in_use_by n) else some confident_idle
    ]

pub record Sample : Type 0 where
  pub bytes : ℕ
  -- Nanoseconds.
  pub at : ℕ

-- `rate > threshold`, with the division multiplied out: bytes in so many nanoseconds.
abbrev pub is_above : ℕ → Sample → Sample → Bool
is_above threshold prior now =
    ltb (threshold * (now.at - prior.at)) ((now.bytes - prior.bytes) * 1000000000)

abbrev pub rate_verdict : ℕ → Option Sample → Sample → Result
rate_verdict threshold none now = cannot_tell
rate_verdict threshold (some prior) now =
    if leb now.at prior.at || ltb now.bytes prior.bytes
    then cannot_tell
    else record confident_idle { in_use = is_above threshold prior now }

-- `netio.InUse` over its previous samples; `none` for an error of Docker's stats.
unfoldable pub netio : ℕ → String → Option Sample → Map Sample → Option Result × Map Sample
netio threshold id none previous = (none, previous)
netio threshold id (some now) previous =
    (some (rate_verdict threshold (lookup id previous) now), insert id now previous)

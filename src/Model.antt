-- ===== src/Model.antt =====
-- internal/model/model.go: the vocabulary of the rest. Ports and durations are naturals. Go tells a
-- nil slice from an empty one only in a container's `Cmd` and `Entrypoint`, which are options here.
-- What a recreate only passes through as Docker wrote it (`Inspect`) is not modelled.
pub mod Published
mod Examples
use tidewaiter.Common.{
  ℕ, String, Bool, true, false, ◌&&◌, Option, List, [], ◌∷◌, Map, ◌==◌, if◌then◌else◌, is_empty,
}

pub data Protocol : Type 0 where
  tcp udp : Protocol

pub data HealthStatus : Type 0 where
  starting healthy unhealthy no_health : HealthStatus

pub record PublishedPort : Type 0 where
  pub host_port : ℕ
  pub container_port : ℕ
  pub protocol : Protocol

pub record PortBinding : Type 0 where
  pub host_ip : String
  pub host_range : String
  pub port : PublishedPort

pub record Mount : Type 0 where
  pub source : String
  pub target : String
  pub read_only : Bool
  pub anonymous : Bool

pub record NetworkAttachment : Type 0 where
  pub name : String
  pub aliases : List String
  pub ipv4_address : String
  pub ipv6_address : String
  pub ip_address : String

pub record Healthcheck : Type 0 where
  pub test : List String
  pub interval : ℕ
  pub timeout : ℕ
  pub retries : ℕ
  pub start_period : ℕ
  pub start_interval : ℕ

-- The fields that Tidewaiter reads to decide.
pub record ContainerSpec : Type 0 where
  pub name : String
  pub image : String
  pub env : List String
  pub cmd : Option (List String)
  pub entrypoint : Option (List String)
  pub labels : Map String
  pub mounts : List Mount
  pub bindings : List PortBinding
  pub exposed : List String
  pub volumes : List String
  pub networks : List NetworkAttachment
  pub network_mode : String
  pub user : String
  pub working_dir : String
  pub stop_signal : String
  pub stop_timeout : Option ℕ
  pub healthcheck : Option Healthcheck

pub record RunningContainer : Type 0 where
  pub id : String
  pub pid : ℕ
  pub spec : ContainerSpec
  pub image_id : String
  pub health : HealthStatus
  pub running : Bool

abbrev pub is_tcp : Protocol → Bool
is_tcp tcp = true
is_tcp udp = false

abbrev pub same_protocol : Protocol → Protocol → Bool
same_protocol tcp tcp = true
same_protocol udp udp = true
same_protocol _ _ = false

-- Two ports with one key: the source's key is the text `tcp/8080` of the pair.
abbrev pub same_key : PublishedPort → PublishedPort → Bool
same_key p q = same_protocol p.protocol q.protocol && p.host_port == q.host_port

-- `seen[key]`, the keys seen being those of the ports found so far.
abbrev pub seen_key : PublishedPort → List PublishedPort → Bool
seen_key p [] = false
seen_key p (q ∷ qs) = if same_key q p then true else seen_key p qs

-- The loop of `Published` over the bindings left, with the ports found so far, newest first.
published_from : List PortBinding → List PublishedPort → List PublishedPort
published_from [] found = []
published_from (b ∷ bs) found =
    let skipped = published_from bs found in
    let taken = b.port ∷ published_from bs (b.port ∷ found) in
    if b.port.host_port == 0 then skipped else if seen_key b.port found then skipped else taken

-- `ContainerSpec.Published`.
unfoldable pub published : ContainerSpec → List PublishedPort
unfolding published_from
published spec = published_from spec.bindings []

-- `Healthcheck.Unset`.
unfoldable pub is_unset : Healthcheck → Bool
is_unset check =
    is_empty check.test
    && check.interval == 0
    && check.timeout == 0
    && check.retries == 0
    && check.start_period == 0
    && check.start_interval == 0

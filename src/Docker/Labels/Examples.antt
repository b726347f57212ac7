-- ===== src/Docker/Labels/Examples.antt =====
-- Labels of a container that publishes one port.
use tidewaiter.Common.{
  String, ◌≡◌, refl, true, none, some, List, [], ◌∷◌, Map, trim, to_lower, split, atoi, decimal,
}
use tidewaiter.Model.{udp, PublishedPort}
use tidewaiter.Ports.{parse_port}
use tidewaiter.Docker.State.{Autoupdate, registry, Policy}
use tidewaiter.Docker.Labels.{parse_labels, choose_all}
use tidewaiter.Docker.Chosen.{Opted, IsSound, parse_labels_lem}

abbrev labels : Map String
labels =
    ("tidewaiter.autoupdate", " Registry")
    ∷ ("tidewaiter.health", "port,sleep")
    ∷ ("tidewaiter.idle-samples", "0")
    ∷ ("tidewaiter.ports", "25565/tcp, 19132")
    ∷ []

abbrev game : List PublishedPort
game = record { host_port = 19132; container_port = 19132; protocol = udp } ∷ []

labels_run : parse_labels "tidewaiter.autoupdate" labels game ≡ (
  some (record {
    autoupdate = registry;
    detector = "conntrack";
    ports = game;
    ports_override = true;
    idle_samples = 3;
    health = "port-connect" ∷ "port-bound" ∷ [];
    health_timeout_seconds = 120;
    grace_seconds = none;
    keep_images = 1;
  }),
  "tidewaiter.health: 'sleep' is not a known check (docker, port-connect, port-bound, uptime); ignoring it"
      ∷ "tidewaiter.idle-samples: '0' must be at least 1; using 3"
      ∷ "tidewaiter.ports: '25565/tcp' is not a port this container publishes; ignoring it" ∷ [],
)
unfolding parse_labels choose_all trim to_lower split atoi parse_port decimal
labels_run = refl

parse_labels_example :
    ((policy : Policy)
      → (parse_labels "tidewaiter.autoupdate" labels game).0 ≡ some policy
      → Opted "tidewaiter.autoupdate" labels policy.autoupdate × IsSound labels game policy)
    × ((autoupdate : Autoupdate)
        → Opted "tidewaiter.autoupdate" labels autoupdate
        → (policy : Policy) × ((parse_labels "tidewaiter.autoupdate" labels game).0 ≡ some policy)
          × (policy.autoupdate ≡ autoupdate))
parse_labels_example = parse_labels_lem "tidewaiter.autoupdate" labels game

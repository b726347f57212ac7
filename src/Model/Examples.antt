-- ===== src/Model/Examples.antt =====
-- A container and the ports that it publishes.
use tidewaiter.Common.{◌≡◌, refl, ◌≢◌, none, [], ◌∷◌, All, Any, Elem}
use tidewaiter.Model.{ContainerSpec, PortBinding, PublishedPort, tcp, udp, published}
use tidewaiter.Model.Published.{IsDistinct, SameKey, published_lem}

abbrev web : PublishedPort
web = record { host_port = 8080; container_port = 80; protocol = tcp }

abbrev ephemeral : PublishedPort
ephemeral = record { host_port = 0; container_port = 53; protocol = udp }

abbrev app : ContainerSpec
app = record {
  name = "app";
  image = "app:1";
  env = [];
  cmd = none;
  entrypoint = none;
  labels = [];
  mounts = [];
  bindings =
      (record { host_ip = "0.0.0.0"; host_range = ""; port = web })
      ∷ (record { host_ip = "::"; host_range = ""; port = web })
      ∷ (record { host_ip = ""; host_range = ""; port = ephemeral })
      ∷ [];
  exposed = [];
  volumes = [];
  networks = [];
  network_mode = "bridge";
  user = "";
  working_dir = "";
  stop_signal = "";
  stop_timeout = none;
  healthcheck = none;
}

published-app : published app ≡ web ∷ []
unfolding published
published-app = refl

published_example :
    All (λ p. p.host_port ≢ 0) (published app)
    × IsDistinct (published app)
    × ((b : PortBinding)
        → Elem b app.bindings
        → b.port.host_port ≢ 0
        → Any (λ p. SameKey p b.port) (published app))
published_example = published_lem app

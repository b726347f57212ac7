-- ===== src/Docker/Gate/Examples.antt =====
-- A gate of a container that turns healthy.
use tidewaiter.Common.{ℕ, some, []}
use tidewaiter.Source.{answered}
use tidewaiter.Health.Checks
use tidewaiter.Health.Checks.{unreachable}
use tidewaiter.Docker.Examples.{running}
use tidewaiter.Docker.Gate.{GateDeps, Event}

abbrev calm : GateDeps ℕ
calm = record {
  inspect = λ name w. (answered running, w);
  bound = λ w pid protocol. some [];
  connect = λ w host port. unreachable;
  now = λ w. w;
}

abbrev exec : Event
exec = record { container = "app"; action = "exec_start"; status = "" }

abbrev turned : Event
turned = record { container = "app"; action = "health_status: healthy"; status = "healthy" }

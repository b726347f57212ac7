-- ===== src/Docker/Gate.antt =====
-- The two arms of `gate` in internal/docker/source.go: the evaluation that both make, and what `watch` makes
-- of the engine's events. Which arm is first is not modelled; the poll is the loop of internal/health/gate.go.
-- The drivers of the networks are one function for a gate, as each is asked for once.
pub mod Events
mod Examples
use tidewaiter.Common.{
  ℕ, String, Bool, true, false, not, ◌&&◌, Option, none, some, List, [], ◌∷◌, if◌then◌else◌, str_eq,
}
use text.Mathlib.Text.{starts_with}
use tidewaiter.Model.{HealthStatus, healthy, unhealthy, PublishedPort, published, RunningContainer}
use tidewaiter.Source.{Answer, answered, errored}
use tidewaiter.Health.{Result, Verdict, container_subject, combine, uptime_seconds}
use tidewaiter.Health.Checks
use tidewaiter.Docker.State.{Policy}

-- A check of the gate, with when it first saw the container, `none` being Go's zero time.
pub data Check : Type 0 where
  docker port_bound : Check
  uptime port_connect : Option ℕ → Check

-- `checksFor`.
unfoldable pub checks_for : List String → List Check
checks_for [] = []
checks_for (name ∷ names) =
    let rest = checks_for names in
    if str_eq name "docker"
    then docker ∷ rest
    else if str_eq name "port-bound"
    then port_bound ∷ rest
    else if str_eq name "uptime"
    then uptime none ∷ rest
    else if str_eq name "port-connect"
    then port_connect none ∷ rest
    else rest

-- What a gate asks of the outside: an inspect, the bound ports of a process, a connect, the clock.
pub record GateDeps (W : Type 0) : Type 0 where
  pub inspect : String → W → Answer RunningContainer × W
  pub bound : W → ℕ → Checks.BoundPorts
  pub connect : W → Checks.Prober
  pub now : W → ℕ

-- `Docker`'s event, of a container.
pub record Event : Type 0 where
  pub container : String
  pub action : String
  pub status : String

abbrev pub or_else : Option Result → Result → Result
or_else none usual = usual
or_else (some override) usual = override

-- One check; `override` is what an event says in place of the `docker` check.
unfoldable pub check : ℕ → ℕ → HealthStatus → Checks.Input → Option Result → Check → Result × Check
check grace now status input override docker =
    (or_else override (Checks.docker_verdict status), docker)
check grace now status input override port_bound = (Checks.port_bound input, port_bound)
check grace now status input override (uptime seen) =
    let (result, seen') = Checks.uptime grace now input seen in (result, uptime seen')
check grace now status input override (port_connect seen) =
    let (result, seen') = Checks.port_connect grace now input seen in (result, port_connect seen')

unfoldable pub check_all :
    ℕ → ℕ → HealthStatus → Checks.Input → Option Result → List Check → List Result × List Check
unfolding check
check_all grace now status input override [] = ([], [])
check_all grace now status input override (c ∷ cs) =
    let (result, c') = check grace now status input override c in
    let (results, cs') = check_all grace now status input override cs in
    (result ∷ results, c' ∷ cs')

-- The status that settles something, of an event.
abbrev pub status_named : String → Option HealthStatus
status_named status =
    if str_eq status "healthy"
    then some healthy
    else if str_eq status "unhealthy"
    then some unhealthy
    else none

module _ {W : Type 0} (deps : GateDeps W) (policy : Policy) (driver : String → String) where
  open deps use {inspect, bound, connect, now}

  abbrev pub input_of : RunningContainer → W → Checks.Input
  input_of fresh w = record {
    subject = container_subject fresh;
    ports = if policy.ports_override then policy.ports else published fresh.spec;
    bound = bound w fresh.pid;
    connect = connect w;
    network_driver = some driver;
  }

  -- `evaluate`, over the checks' memory.
  unfoldable pub evaluate :
      String → Option Result → W × List Check → Answer (List Result) × (W × List Check)
  unfolding check_all
  evaluate name override (w, checks) =
      let (answer, w') = inspect name w in
      elim answer [
        | errored e ↦ (errored e, (w', checks))
        | answered fresh ↦
            let (results, checks') =
              check_all (uptime_seconds policy.health_timeout_seconds) (now w') fresh.health
                (input_of fresh w') override checks in
            (answered results, (w', checks'))
      ]

  -- What an evaluation that an event asked for settles.
  abbrev pub judged : Answer (List Result) × (W × List Check) → Option Verdict × (W × List Check)
  judged (errored e, s) = (none, s)
  judged (answered results, s) = (combine results false, s)

  -- The function that `watch` gives to `Events`; `none` is not settled.
  unfoldable pub on_event : String → Event → W × List Check → Option Verdict × (W × List Check)
  on_event name event s =
      if not (str_eq event.container name)
      then (none, s)
      else if not (starts_with event.action "health_status")
      then (none, s)
      else elim (status_named event.status) [
        | none ↦ (none, s)
        | some status ↦ judged (evaluate name (some (Checks.docker_verdict status)) s)
      ]

  -- A stream of events, each with the world that it finds, up to the first that settles.
  unfoldable pub on_events : String → List (Event × W) → List Check → Option Verdict × List Check
  on_events name [] checks = (none, checks)
  on_events name ((event, w) ∷ rest) checks =
      let (settled, (w', checks')) = on_event name event (w, checks) in
      elim settled [ some v ↦ (some v, checks') | none ↦ on_events name rest checks' ]

  -- `watch`, over the streams that were opened before its context was done.
  unfoldable pub watch : String → List (List (Event × W)) → List Check → Option Verdict × List Check
  watch name [] checks = (none, checks)
  watch name (stream ∷ rest) checks =
      let (settled, checks') = on_events name stream checks in
      elim settled [ some v ↦ (some v, checks') | none ↦ watch name rest checks' ]

-- ===== src/Docker/Gate/Events.antt =====
-- What the event arm of internal/docker/source.go settles on.
use tidewaiter.Common.{String, ◌≡◌, ◌⊎◌, true, false, some, List, Elem, Any, All}
use text.Mathlib.Text.{starts_with}
use tidewaiter.Model.{HealthStatus, healthy}
use tidewaiter.Source.{answered}
use tidewaiter.Health.{Result, Verdict, commit}
use tidewaiter.Health.Checks
use tidewaiter.Health.Combine.{Failing, Settled}
use tidewaiter.Docker.State.{Policy}
use tidewaiter.Docker.Gate.{Check, docker, GateDeps, Event, status_named, evaluate}

-- The checks have the `docker` one.
abbrev pub HasDocker : List Check → Type 0
HasDocker checks = Elem docker checks

module _ {W : Type 0} (deps : GateDeps W) (policy : Policy) (driver : String → String)
    (name : String) where
  -- An event of the container's health, of that status.
  abbrev pub IsAbout : Event → HealthStatus → Type 0
  IsAbout event status =
      (event.container ≡ name)
      × (starts_with event.action "health_status" ≡ true)
      × (status_named event.status ≡ some status)

  -- What speaks for a verdict on an event: the event is of the container's health, and an evaluation that
  -- was made on it, in the world that it came in, has the event's verdict among its results; to roll back,
  -- one of them fails; to commit, every check passed or was skipped, and the event says healthy.
  abbrev pub SpeaksFor : Event × W → Verdict → Type 0
  SpeaksFor (event, w) v =
      (status : HealthStatus) × (checks : List Check) × (results : List Result) × IsAbout event
        status
      × ((evaluate deps policy driver name (some (Checks.docker_verdict status)) (w, checks)).0
          ≡ answered results)
      × Elem (Checks.docker_verdict status) results
      × (((v.healthy ≡ false) × Any Failing results)
          ⊎ ((v ≡ commit) × All Settled results × (status ≡ healthy)))

  -- An event of one of the streams speaks for the verdict.
  abbrev pub Grounds : List (List (Event × W)) → Verdict → Type 0
  Grounds streams v = Any (λ stream. Any (λ e. SpeaksFor e v) stream) streams

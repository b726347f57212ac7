-- ===== src/Health.antt =====
-- internal/health/health.go and the grace of internal/health/gate.go: what a check concludes, the
-- rule that combines the checks, and how long a check waits before it decides.
pub mod Combine
pub mod Gate
pub mod Checks
mod Examples
use tidewaiter.Common.{
  ℕ, ◌*◌, ◌/◌, min, max, String, Bool, true, false, Option, none, some, List, [], ◌∷◌,
  if◌then◌else◌, str_eq,
}
use tidewaiter.Model.{HealthStatus, NetworkAttachment, RunningContainer}

pub data Outcome : Type 0 where
  inconclusive pass fail skip : Outcome

pub record Result : Type 0 where
  pub outcome : Outcome
  pub reason : String

abbrev pub passed : Result
passed = record { outcome = pass; reason = "" }

abbrev pub waiting : Result
waiting = record { outcome = inconclusive; reason = "" }

abbrev pub skipped : Result
skipped = record { outcome = skip; reason = "" }

abbrev pub failed : String → Result
failed why = record { outcome = fail; reason = why }

pub record Verdict : Type 0 where
  pub healthy : Bool
  pub reason : String

abbrev pub commit : Verdict
commit = record { healthy = true; reason = "" }

abbrev pub roll_back : String → Verdict
roll_back why = record { healthy = false; reason = why }

pub record Subject : Type 0 where
  pub running : Bool
  pub health : HealthStatus
  pub networks : List NetworkAttachment
  pub network_mode : String

unfoldable pub container_subject : RunningContainer → Subject
container_subject c = record {
  running = c.running;
  health = c.health;
  networks = c.spec.networks;
  network_mode = c.spec.network_mode;
}

-- The first loop of `Combine`: the first failure, if there is one.
abbrev pub first_fail : List Result → Option Result
first_fail [] = none
first_fail (r ∷ rs) = elim (r.outcome) [ fail ↦ some r | _ ↦ first_fail rs ]

-- The second loop: whether some check is inconclusive.
abbrev pub any_inconclusive : List Result → Bool
any_inconclusive [] = false
any_inconclusive (r ∷ rs) = elim (r.outcome) [ inconclusive ↦ true | _ ↦ any_inconclusive rs ]

abbrev pub fail_reason : String → String
fail_reason reason = if str_eq reason "" then "a health check failed" else reason

-- `Combine`; `none` is its false, "keep polling".
unfoldable pub combine : List Result → Bool → Option Verdict
combine results timed_out = elim (first_fail results) [
  | some r ↦ some (roll_back (fail_reason r.reason))
  | none ↦ if timed_out then some commit else if any_inconclusive results then none else some commit
]

-- `UptimeSeconds`. A timeout is a positive number of seconds, so the division rounds down.
unfoldable pub uptime_seconds : ℕ → ℕ
uptime_seconds timeout_seconds = max 2 (min 30 (timeout_seconds * 66 / 100))

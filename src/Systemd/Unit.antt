-- ===== src/Systemd/Unit.antt =====
-- internal/systemd/systemd.go: a unit as systemd reports it, and what that says of a restart.
use tidewaiter.Common.{ℕ, String, ◌+s◌, Bool, not, ◌&&◌, ◌||◌, if◌then◌else◌, str_eq, ltb}
use tidewaiter.Health
use tidewaiter.Health.{Result, passed, waiting}

pub record UnitState : Type 0 where
  pub name : String
  pub load_state : String
  pub active_state : String
  pub sub_state : String
  pub result : String
  pub restarts : ℕ
  pub main_pid : ℕ
  -- "" when the unit is not running.
  pub control_group : String
  pub invocation_id : String

pub data JobResult : Type 0 where
  done canceled timeout failed dependency skipped : JobResult

abbrev pub job_text : JobResult → String
job_text JobResult.done = "done"
job_text JobResult.canceled = "canceled"
job_text JobResult.timeout = "timeout"
job_text JobResult.failed = "failed"
job_text JobResult.dependency = "dependency"
job_text JobResult.skipped = "skipped"

-- `IsUp`.
abbrev pub is_up : UnitState → Bool
is_up state = str_eq state.active_state "active" || str_eq state.active_state "reloading"

-- `IsStopped`.
abbrev pub is_stopped : UnitState → Bool
is_stopped state = str_eq state.active_state "inactive" || str_eq state.active_state "failed"

-- `RestartedSince`.
abbrev pub restarted_since : UnitState → UnitState → Bool
restarted_since baseline state =
    not (str_eq state.invocation_id baseline.invocation_id) || ltb baseline.restarts state.restarts

abbrev pub with_result : String → String
with_result result =
    if not (str_eq result "") && not (str_eq result "success") then " (" +s result +s ")" else ""

-- The end of `Verdict`, for a job that ended done.
unfoldable pub verdict_of_state : UnitState → UnitState → Result
verdict_of_state baseline state =
    if restarted_since baseline state
    then Health.failed "the unit crashed and was restarted since it came up"
    else if is_up state
    then passed
    else if str_eq state.active_state "activating"
    then waiting
    else Health.failed ("the unit is " +s state.active_state +s with_result state.result)

-- `Verdict`.
unfoldable pub verdict : JobResult → UnitState → UnitState → Result
unfolding verdict_of_state
verdict JobResult.done baseline state = verdict_of_state baseline state
verdict job baseline state = Health.failed ("the restart job ended '" +s job_text job +s "'")

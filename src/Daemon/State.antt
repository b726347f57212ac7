-- ===== src/Daemon/State.antt =====
-- The state of the daemon of internal/daemon/daemon.go, and the world around it.
use tidewaiter.Common.{ℕ, String, Bool, false, Option, none, some, List, [], ◌∷◌, Map, lookup}
use tidewaiter.Reboot
use tidewaiter.Source.{Source, Answer}
use tidewaiter.Detect.{ConntrackEntry}

-- internal/status/status.go: what the status file says. A time is seconds.
pub record Workload : Type 0 where
  pub workload : String
  pub source : String
  pub busy : Bool
  pub settled : Bool

pub record RebootStatus : Type 0 where
  pub window : String
  pub needed : String
  pub verdict : String

pub record Status : Type 0 where
  pub updated : ℕ
  pub stale_after : ℕ
  pub busy : List String
  pub swapping : List String
  pub workloads : List Workload
  pub reboot : Option RebootStatus

-- `verdicts`: one source's workloads as last seen.
pub record Verdicts : Type 0 where
  pub order : List String
  pub busy : Map Bool
  pub settled : Map Bool

abbrev pub no_verdicts : Verdicts
no_verdicts = record { order = []; busy = []; settled = [] }

-- What systemd is told.
pub data Notice : Type 0 where
  ready stopping : Notice
  status_line : String → Notice

pub record AutoReboot : Type 0 where
  pub window : Reboot.Window
  pub label : String

-- The fields of `Daemon` that a pass changes. `lines` and `errors` are what the log was given, newest
-- first, `written` the statuses given to the sink, and `asks` how often logind was asked to reboot:
-- they record calls, and no code reads them.
pub record Daemon : Type 0 where
  pub seen : Map Verdicts
  pub held : List String
  pub last_summary : String
  pub last_conntrack_error : String
  pub last_status_error : String
  pub reboot : Option RebootStatus
  pub last_reboot_line : String
  pub rebooting : Bool
  pub last_failure : String
  pub last_notified : String
  pub last_notify_error : String
  pub stopping : Bool
  pub lines : List String
  pub errors : List String
  pub written : List Status
  pub asks : ℕ

-- What `New` starts from.
abbrev pub new_daemon : Daemon
new_daemon = record {
  seen = [];
  held = [];
  last_summary = "";
  last_conntrack_error = "";
  last_status_error = "";
  reboot = none;
  last_reboot_line = "";
  rebooting = false;
  last_failure = "";
  last_notified = "";
  last_notify_error = "";
  stopping = false;
  lines = [];
  errors = [];
  written = [];
  asks = 0;
}

-- The error of a call, or `none`.
abbrev pub Failure : Type 0
Failure = Option String

-- What a daemon is built from.
pub record Deps (W : Type 0) : Type 0 where
  pub sources : List (Source W)
  -- Seconds between activity ticks.
  pub activity_interval : ℕ
  pub auto_reboot : Option AutoReboot
  -- `conntrack.Dump`: the flows, or an error.
  pub dump : W → Answer (List ConntrackEntry) × W
  -- `clock.Now()`, and its hour and minute in the clock's own location.
  pub now : W → ℕ
  pub hour : W → ℕ
  pub minute : W → ℕ
  pub write : Status → W → Failure × W
  pub notify : List Notice → W → Failure × W
  -- `BootCheck.Needed` and `Rebooter.Reboot`.
  pub needed : W → Reboot.Need × W
  pub ask_reboot : W → Failure × W

abbrev pub State : Type 0 → Type 0
State W = Daemon × W

abbrev pub log : String → Daemon → Daemon
log line d = record d { lines = line ∷ d.lines }

abbrev pub log_error : String → Daemon → Daemon
log_error line d = record d { errors = line ∷ d.errors }

-- `verdictsOf`: a source's verdicts, or new ones.
abbrev pub verdicts_of : String → Daemon → Verdicts
verdicts_of name d = elim (lookup name d.seen) [ none ↦ no_verdicts | some v ↦ v ]

-- ===== src/Daemon/Publish.antt =====
-- The status of internal/daemon/daemon.go: what is in use, unsettled and being swapped, and how it is
-- written and told to systemd.
use tidewaiter.Common.{
  ◌*◌, max, String, ◌+s◌, Bool, true, false, not, ◌&&◌, Option, none, some, List, [], ◌∷◌, ◌++◌,
  Map, lookup, get_or, if◌then◌else◌, str_eq, is_empty, join, sort, set_add,
}
use tidewaiter.Source.{Source}
use tidewaiter.Daemon.State.{
  Workload, RebootStatus, Status, Verdicts, Notice, status_line, stopping, Daemon, Failure, Deps,
  State, log,
}

-- The workloads with a true verdict, added to a set.
abbrev pub names_of : Bool → Map Bool → List String → List String
names_of want [] names = names
names_of want ((workload, verdict) ∷ rest) names =
    names_of want rest
      (if (if want then verdict else not verdict) then set_add workload names else names)

abbrev pub busy_names : Map Verdicts → List String → List String
busy_names [] names = names
busy_names ((source, v) ∷ rest) names = busy_names rest (names_of true v.busy names)

abbrev pub unsettled_names : Map Verdicts → List String → List String
unsettled_names [] names = names
unsettled_names ((source, v) ∷ rest) names = unsettled_names rest (names_of false v.settled names)

-- `inUse`.
unfoldable pub in_use : Daemon → List String
in_use d = sort (busy_names d.seen [])

-- `unsettled`.
unfoldable pub unsettled : Daemon → List String
unsettled d = sort (unsettled_names d.seen [])

-- `Swapping`.
unfoldable pub swapping : Daemon → List String
swapping d = sort d.held

-- One source's part of the status.
abbrev pub workloads_of : String → Verdicts → List String → List Workload
workloads_of source v [] = []
workloads_of source v (workload ∷ order) =
    record {
      workload = workload;
      source = source;
      busy = get_or false workload v.busy;
      settled = get_or false workload v.settled;
    }
    ∷ workloads_of source v order

abbrev pub busy_part : List String → String
busy_part [] = ""
busy_part (b ∷ bs) = "; in use: " +s join ", " (b ∷ bs)

abbrev pub reboot_part : Option RebootStatus → String
reboot_part none = ""
reboot_part (some r) =
    if str_eq r.needed "" then "" else "; reboot needed, " +s r.needed +s ": " +s r.verdict

abbrev pub doing : Daemon → Status → String
doing d status =
    if not (str_eq d.last_failure "")
    then "The last pass failed: " +s d.last_failure
    else if str_eq d.last_summary ""
    then "Starting the first pass"
    else if is_empty status.busy
    then "Idle: " +s d.last_summary
    else d.last_summary

-- `statusLine`.
unfoldable pub line_of : Daemon → Status → String
line_of d status =
    if not (is_empty status.swapping)
    then "Swapping " +s join ", " status.swapping
    else doing d status +s busy_part status.busy +s reboot_part status.reboot

-- The STATUS= line among the states, which the daemon remembers.
abbrev pub told_line : List Notice → String → String
told_line [] line = line
told_line (n ∷ ns) line = told_line ns (elim n [ status_line l ↦ l | _ ↦ line ])

-- How a problem with systemd is remembered, and logged once.
abbrev pub notified : Failure → Daemon → Daemon
notified none d = record d { last_notify_error = "" }
notified (some e) d =
    if str_eq e d.last_notify_error
    then d
    else log ("Warning: could not tell systemd how Tidewaiter is getting on (" +s e +s ")")
        (record d { last_notify_error = e })

-- How a problem with the status is remembered, and logged once.
abbrev pub wrote : Failure → Daemon → Daemon
wrote none d = record d { last_status_error = "" }
wrote (some e) d =
    if str_eq e d.last_status_error
    then d
    else log ("Warning: could not write the status (" +s e +s ")")
        (record d { last_status_error = e })

module _ {W : Type 0} (deps : Deps W) where
  open deps use {sources, activity_interval, now, write, notify}

  abbrev pub all_workloads : List (Source W) → Map Verdicts → List Workload
  all_workloads [] seen = []
  all_workloads (s ∷ rest) seen = elim (lookup s.name seen) [
    | none ↦ all_workloads rest seen
    | some v ↦ workloads_of s.name v v.order ++ all_workloads rest seen
  ]

  -- `snapshot`.
  unfoldable pub snapshot : Daemon → W → Status
  snapshot d w = record {
    updated = now w;
    stale_after = max 60 (4 * activity_interval);
    busy = in_use d;
    swapping = swapping d;
    workloads = all_workloads sources d.seen;
    reboot = d.reboot;
  }

  -- `tell`.
  unfoldable pub tell : List Notice → State W → State W
  tell states (d, w) =
      let (failure, w') = notify states w in
      (notified failure (record d { last_notified = told_line states d.last_notified }), w')

  abbrev pub write_status : Status → State W → State W
  write_status status (d, w) =
      let (failure, w') = write status w in
      (wrote failure (record d { written = status ∷ d.written }), w')

  -- `publish`.
  unfoldable pub publish : State W → State W
  unfolding tell line_of
  publish (d, w) =
      let status = snapshot d w in
      let line = line_of d status in
      write_status status (
        if not (str_eq line d.last_notified) && not d.stopping
        then tell (status_line line ∷ []) (d, w)
        else (d, w))

  -- `stop`.
  unfoldable pub stop : State W → State W
  unfolding tell
  stop (d, w) =
      tell
        (stopping
          ∷ status_line (
              if is_empty d.held
              then "Stopping"
              else "Stopping once the swap of " +s join ", " (sort d.held) +s " is done")
          ∷ [])
        (record d { stopping = true }, w)

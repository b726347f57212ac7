-- ===== src/Daemon/Examples.antt =====
-- Runs of the daemon over one source, which swaps a workload in each pass.
use tidewaiter.Common.{
  ◌-◌, ◌*◌, ◌<◌, ℕ, String, ◌≡◌, refl, ◌≢◌, ◌↔◌, ◌⊎◌, true, false, none, some, List, [], ◌∷◌, Any,
  Elem, lookup, has_key, arith,
}
use tidewaiter.Decide
use tidewaiter.Reboot
use tidewaiter.Source.{Source, Outcome, Activity, answered, finished, holding}
use tidewaiter.Daemon.State.{AutoReboot, no_verdicts, new_daemon, Deps, verdicts_of}
use tidewaiter.Daemon.Publish.{in_use, unsettled, swapping, publish, snapshot}
use tidewaiter.Daemon.Pass.{hold, once, tick, noun, record_outcomes, note_activity, read_activity}
use tidewaiter.Daemon.Reboots.{consider_reboot, reboot_verdict}
use tidewaiter.Daemon.Reach.{here, passed, ticked, considered, Reach-held, Reach-granted}
use tidewaiter.Daemon.Reads.{is_busy, is_stale, snapshot-reads}
use tidewaiter.Daemon.Holds.{newest_swapping, hold_lem, Concluded, once_lem}
use tidewaiter.Daemon.Outcomes.{busy_after, settled_after, outcomes_of, record_outcomes_lem}
use tidewaiter.Daemon.Verdicts.{Says}
use tidewaiter.Daemon.Ticks.{last_report, note_activity_lem, SameSettled, tick-SameSettled}

abbrev app : String
app = "app"

abbrev docker : String
docker = "docker"

abbrev systemd : String
systemd = "systemd"

abbrev updated : Outcome
updated = record {
  workload = "app";
  action = record { kind = Decide.update; from = "a"; to = "b"; reason = "newer" };
  busy = some false;
  settled = false;
}

abbrev kept : Outcome
kept = record {
  workload = "db";
  action = Decide.plain Decide.keep "unreachable";
  busy = none;
  settled = false;
}

abbrev swapper : Source ℕ
swapper = record {
  name = "docker";
  once = λ table w. holding w "app" (λ w'. finished w' (answered (updated ∷ [])));
  activity = λ table w. (answered ((record { workload = "app"; busy = true }) ∷ []), w);
}

abbrev night : AutoReboot
night = record { window = record { start = 120; end = 300 }; label = "02:00-05:00" }

abbrev deps : Deps ℕ
deps = record {
  sources = swapper ∷ [];
  activity_interval = 15;
  auto_reboot = some night;
  dump = λ w. (answered [], w);
  now = λ w. w;
  hour = λ w. 3;
  minute = λ w. 0;
  write = λ status w. (none, w);
  notify = λ states w. (none, w);
  needed = λ w. (Reboot.tells "kernel changed since boot", w);
  ask_reboot = λ w. (none, w);
}

-- The same machine with nothing to keep up to date.
abbrev quiet : Deps ℕ
quiet = record deps { sources = [] }

asked_once : (consider_reboot quiet (new_daemon, 7)).0.asks ≡ 1
unfolding consider_reboot read_activity in_use unsettled swapping Reboot.contains_time Reboot.decide
    publish reboot_verdict snapshot tidewaiter.Daemon.Reboots.standing
asked_once = refl

hold_example :
    let s = hold deps "app" (new_daemon, 7) in
    (Elem "app" s.0.held ↔ ((app ≡ app) ⊎ Elem "app" new_daemon.held))
    × (s.0.seen ≡ new_daemon.seen)
    × ((names : List String) × (newest_swapping s.0.written ≡ some names)
        × (Elem "app" names ↔ ((app ≡ app) ⊎ Elem "app" new_daemon.held)))
hold_example = hold_lem deps "app" "app" new_daemon 7

once_example :
    let (answer, s) = once deps (new_daemon, 7) in
    (s.0.held ≡ []) × (newest_swapping s.0.written ≡ some []) × Concluded answer (noun deps) s.0
once_example = once_lem deps (new_daemon, 7)

record_outcomes_example :
    let v = verdicts_of "docker" (record_outcomes "docker" (updated ∷ kept ∷ []) new_daemon) in
    (lookup "app" v.busy
      ≡ busy_after
          (lookup "app" (verdicts_of "docker" new_daemon).busy)
          (outcomes_of "app" (updated ∷ kept ∷ []))
          none)
    × (lookup "app" v.settled ≡ settled_after (outcomes_of "app" (updated ∷ kept ∷ [])) none)
    × (docker ≢ systemd
        → lookup "systemd" (record_outcomes "docker" (updated ∷ kept ∷ []) new_daemon).seen
          ≡ lookup "systemd" new_daemon.seen)
record_outcomes_example =
    record_outcomes_lem "docker" "systemd" "app" (updated ∷ kept ∷ []) new_daemon

abbrev busy_report : List Activity
busy_report = (record { workload = "app"; busy = true }) ∷ []

note_activity_example :
    (lookup "app" (note_activity busy_report no_verdicts).busy ≡ last_report "app" busy_report)
    × ((note_activity busy_report no_verdicts).settled ≡ no_verdicts.settled)
    × (Elem "app" no_verdicts.order
        → has_key "app" no_verdicts.settled ≡ true
        → Elem "app" (note_activity busy_report no_verdicts).order)
note_activity_example = note_activity_lem "app" busy_report no_verdicts

tick-SameSettled_example : SameSettled new_daemon (tick deps true (new_daemon, 7)).0
tick-SameSettled_example = tick-SameSettled deps true (new_daemon, 7)

-- A pass, a tick while the turn is free, and a look at a reboot.
Reach-held_example :
    (consider_reboot deps (tick deps true (once deps (new_daemon, 7)).1)).0.held ≡ []
Reach-held_example =
    Reach-held deps (new_daemon, 7)
      (consider_reboot deps (tick deps true (once deps (new_daemon, 7)).1)) refl
      (considered (ticked true (passed here)))

Reach-granted_example :
    (consider_reboot quiet (once quiet (consider_reboot quiet (new_daemon, 7))).1).0.asks
    ≡ (consider_reboot quiet (new_daemon, 7)).0.asks
Reach-granted_example =
    Reach-granted quiet (new_daemon, 7)
      (consider_reboot quiet (once quiet (consider_reboot quiet (new_daemon, 7))).1)
      (λ same. ground (arith, asked_once)) refl (considered (passed here))

snapshot-reads_example :
    ((is_busy (snapshot deps new_daemon 7) ≡ true) ↔ (
      ((x : String) × Any (λ e. Says true x e.1.busy) new_daemon.seen)
      ⊎ ((x : String) × Elem x new_daemon.held)))
    × ((is_stale (snapshot deps new_daemon 7) 70 ≡ true) ↔ ((60 < 70 - 7) × (4 * 15 < 70 - 7)))
snapshot-reads_example = snapshot-reads deps new_daemon 7 70

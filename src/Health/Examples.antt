-- ===== src/Health/Examples.antt =====
-- Runs of the gate and of the checks.
use tidewaiter.Common.{
  ℕ, suc, ◌+◌, ◌<◌, ◌≤◌, ◌≡◌, refl, ◌↔◌, true, false, none, some, [], ◌∷◌, arith,
}
use tidewaiter.Model.{tcp, healthy}
use tidewaiter.Health.{Result, Subject, passed, waiting, failed, commit, combine, uptime_seconds}
use tidewaiter.Health.Combine.{Says, combine-Says, uptime_seconds_bounds}
use tidewaiter.Health.Gate.{results, World, IsClocked, Ended, decided, Timing, gate}
use tidewaiter.Health.Gate.Verdicts.{gate_total, Reasons, Grounds, gate-Grounds}
use tidewaiter.Health.Checks.{Input, refused, any_port_bound, uptime}
use tidewaiter.Health.Checks.Serving.{CountsFrom, Uptime-Rests, uptime-Rests}

combine-Says_example :
    Says
      (combine (passed ∷ waiting ∷ failed "down" ∷ []) false)
      (passed ∷ waiting ∷ failed "down" ∷ [])
      false
combine-Says_example = combine-Says (passed ∷ waiting ∷ failed "down" ∷ []) false

uptime_seconds_example :
    (2 ≤ uptime_seconds 2) × (uptime_seconds 2 ≤ 30) × ((uptime_seconds 2 < 2) ↔ (3 ≤ 2))
uptime_seconds_example = uptime_seconds_bounds 2

abbrev if_up : ℕ → Result
if_up (suc (suc (suc (suc (suc n))))) = passed
if_up _ = waiting

-- A container that is not up before the fifth second, on a clock that is the world.
abbrev slow_start : World ℕ
slow_start = record {
  now = λ w. w;
  done = λ w. none;
  evaluate = λ w. (results ((if_up w) ∷ []), w);
  sleep = λ d w. (none, w + d);
}

slow_start-IsClocked : IsClocked slow_start
slow_start-IsClocked = record {
  evaluate_later = λ w. omega arith;
  sleep_waits = λ d w e. omega arith;
}

abbrev timing : Timing
timing = record { timeout = 20; poll = 2 }

gate_run : gate slow_start timing 0 ≡ some (decided commit, 6)
unfolding gate combine
gate_run = refl

gate_total_example :
    (r : Ended × ℕ) × (gate slow_start timing 0 ≡ some r) × Reasons slow_start timing 20 r.0
gate_total_example = gate_total slow_start timing 0 slow_start-IsClocked (omega arith)

gate-Grounds_example : Grounds slow_start timing 20 commit
gate-Grounds_example = gate-Grounds slow_start timing commit 0 6 gate_run

abbrev subject : Subject
subject = record { running = true; health = healthy; networks = []; network_mode = "host" }

abbrev input : Input
input = record {
  subject = subject;
  ports = (record { host_port = 8080; container_port = 80; protocol = tcp }) ∷ [];
  bound = λ p. some (22 ∷ []);
  connect = λ host port. refused;
  network_driver = none;
}

unbound : any_port_bound input ≡ some false
unfolding any_port_bound
unbound = refl

uptime-Rests_example :
    let (result, seen) = uptime 30 40000000000 input (some 0) in
    (since : ℕ) × CountsFrom (some 0) 40000000000 since
    × Uptime-Rests result.outcome 30 40000000000 input since
    × (input.subject.running ≡ true → seen ≡ some since)
    × (input.subject.running ≡ false → seen ≡ some 0)
uptime-Rests_example = uptime-Rests 30 40000000000 input (some 0)

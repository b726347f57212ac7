-- ===== src/Health/Gate.antt =====
-- internal/health/gate.go: the poll that waits for a verdict. What the gate talks to is a parameter:
-- a clock, a context that may be done, one evaluation of every check, and a sleep, over some state
-- of the world. Times are natural numbers of one unit. The loop runs on fuel, one more than the
-- timeout: every round sleeps for at least one unit.
pub mod Verdicts
use tidewaiter.Common.{
  ℕ, zero, suc, ◌+◌, ◌≤◌, ◌<◌, String, ◌+s◌, ◌≡◌, Bool, true, false, Option, none, some, List, [],
  ltb,
}
use tidewaiter.Health.{Result, Verdict, commit, roll_back, combine}

-- What one evaluation of the checks returns.
pub data Answer : Type 0 where
  results : List Result → Answer
  errored : String → Answer

pub record World (W : Type 0) : Type 0 where
  -- `clk.Now()`.
  pub now : W → ℕ
  -- `ctx.Err()`.
  pub done : W → Option String
  pub evaluate : W → Answer × W
  -- `clock.Sleep`, with its error.
  pub sleep : ℕ → W → Option String × W

-- The clock never goes back over an evaluation, and a sleep that was not cut off lasts.
pub record IsClocked {W : Type 0} (world : World W) : Type 0 where
  pub evaluate_later : (w : W) → world.now w ≤ world.now (world.evaluate w).1
  pub sleep_waits :
      (d : ℕ) (w : W) → (world.sleep d w).0 ≡ none → world.now w + d ≤ world.now (world.sleep d w).1

-- How a gate ends: with a verdict, or with its context's error.
pub data Ended : Type 0 where
  decided : Verdict → Ended
  given_up : String → Ended

pub record Timing : Type 0 where
  pub timeout : ℕ
  pub poll : ℕ

-- One round of the loop ends the gate, or goes on.
pub data Round (W : Type 0) : Type 0 where
  stop : Ended → W → Round W
  go_on : W → Round W

abbrev answered : Answer → List Result
answered (results rs) = rs
answered (errored e) = []

-- The verdict that `Combine` settled on, or Go's zero verdict.
abbrev settled_verdict : Option Verdict → Verdict
settled_verdict none = roll_back ""
settled_verdict (some v) = v

module _ {W : Type 0} (world : World W) (timing : Timing) where
  open world use {now, done, evaluate, sleep}

  slept : Option String × W → Round W
  slept (none, w) = go_on w
  slept (some e, w) = stop (given_up e) w

  judge : Answer → W → Round W
  unfolding slept
  judge (errored e) w = elim (done w) [
    | some cut ↦ stop (given_up cut) w
    | none ↦ stop (decided (roll_back ("health check errored: " +s e))) w
  ]
  judge (results rs) w = elim (combine rs false) [
    | some v ↦ stop (decided v) w
    | none ↦ slept (sleep timing.poll w)
  ]

  -- The body of the loop.
  round : W → Round W
  unfolding judge
  round w = elim (done w) [
    | some cut ↦ stop (given_up cut) w
    | none ↦ let (answer, w') = evaluate w in judge answer w'
  ]

  -- The deadline.
  last_look : W → Ended × W
  last_look w = elim (done w) [
    | some cut ↦ (given_up cut, w)
    | none ↦
        let (answer, w') = evaluate w in
        (decided (settled_verdict (combine (answered answer) true)), w')
  ]

  loop : ℕ → ℕ → W → Option (Ended × W)
  unfolding round last_look
  loop zero deadline w = none
  loop (suc fuel) deadline w = elim (ltb (now w) deadline) [
    | true ↦ elim (round w) [ stop e w' ↦ some (e, w') | go_on w' ↦ loop fuel deadline w' ]
    | false ↦ some (last_look w)
  ]

  -- `Gate`; `none` would be a loop that ran out of fuel.
  unfoldable pub gate : W → Option (Ended × W)
  unfolding loop
  gate w = loop (suc timing.timeout) (now w + timing.timeout) w

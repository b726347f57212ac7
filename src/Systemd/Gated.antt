-- ===== src/Systemd/Gated.antt =====
-- How the gate of internal/systemd/source.go ends.
use tidewaiter.Common.{ℕ, ◌+◌, ◌≤◌, ◌<◌, String, ◌≡◌, refl, ◌≢◌, ◌⊎◌, inl, inr, none, List, ◌+s◌}
use tidewaiter.Health.{Verdict, roll_back}
use tidewaiter.Health.Gate
use tidewaiter.Health.Gate.Verdicts.{gate_ends}
use tidewaiter.Source.{Answer-cases, Answer, answered, errored}
use tidewaiter.Systemd.Settings.{Policy}
use tidewaiter.Systemd.Unit.{UnitState, JobResult, job_text}
use tidewaiter.Systemd.State.{State, Deps, ◌>>=◌}
use tidewaiter.Systemd.Gate.{
  Check, checks_of, evaluate, gate_world, timing_of, gate_done, ended, gate,
}

-- A look at a unit does not put the clock back, and a sleep that was not cut off lasts.
pub record IsClocked {W : Type 0} (deps : Deps W) : Type 0 where
  pub unit_later : (name : String) (w : W) → deps.now w ≤ deps.now (deps.unit name w).1
  pub sleep_waits :
      (d : ℕ) (w : W) → (deps.sleep d w).0 ≡ none → deps.now w + d ≤ deps.now (deps.sleep d w).1

-- The errors of a gate: it could not look at the unit at its start.
abbrev pub Unreadable : {W : Type 0} → Deps W → Policy → W → Answer Verdict → Type 0
Unreadable deps policy w answer =
    (e : String) × (answer ≡ errored e) × ((deps.unit policy.unit w).0 ≡ errored e)

module _ {W : Type 0} (deps : Deps W) (policy : Policy) (clocked : IsClocked deps) where
  evaluate-later :
      (baseline : UnitState) (s : W × List Check)
      → deps.now s.0 ≤ deps.now (evaluate deps policy baseline s).1.0
  unfolding evaluate
  evaluate-later baseline (w, checks) = elim (Answer-cases (deps.unit policy.unit w).0) [
    | inl (latest, e) ↦ rw (e, evaluate) (clocked.unit_later policy.unit w)
    | inr (why, e) ↦ rw (e, evaluate) (clocked.unit_later policy.unit w)
  ]

  world-IsClocked : (baseline : UnitState) → Gate.IsClocked (gate_world deps policy baseline)
  world-IsClocked baseline = record {
    evaluate_later = evaluate-later baseline;
    sleep_waits = λ d s. clocked.sleep_waits d s.0;
  }

  gate_done-answers :
      (s : State W)
      → 0 < deps.health_poll
      → let answer = (gate_done deps policy s).0 in
        ((v : Verdict) × (answer ≡ answered v)) ⊎ Unreadable deps policy s.1 answer
  unfolding gate_done
  gate_done-answers (k, w) p =
      let (answer, w') = deps.unit policy.unit w in
      elim (Answer-cases answer) [
        | inr (e, h) ↦ inr (e, rw (h, ◌>>=◌) refl, h)
        | inl (baseline, h) ↦
            let start : W × List Check = (w', checks_of policy.health) in
            let (r, ends) =
              gate_ends (gate_world deps policy baseline) (timing_of deps policy) start
                (world-IsClocked baseline) p in
            inl (ended deps r.0, rw (h, ◌>>=◌, ends) refl)
      ]

  -- The gate of a restart answers with a verdict, of which one on a job that did not end done is at once to
  -- roll back; and it errors only where the job is done and the unit cannot be read right after it. It is
  -- asked that it polls at all, and of the clock that a look at a unit does not put it back and a sleep
  -- moves it on.
  pub gate-answers :
      (job : JobResult) (s : State W)
      → 0 < deps.health_poll
      → let answer = (gate deps policy job s).0 in
        (((v : Verdict) × (answer ≡ answered v))
          ⊎ ((job ≡ JobResult.done) × Unreadable deps policy s.1 answer))
        × (job ≢ JobResult.done
            → answer ≡ answered (roll_back ("the restart job ended '" +s job_text job +s "'")))
  unfolding gate
  gate-answers JobResult.done s p =
      (elim (gate_done-answers s p) [ inl v ↦ inl v | inr e ↦ inr (refl, e) ], λ h. absurd (h refl))
  gate-answers JobResult.canceled s p = (inl (_, refl), λ h. refl)
  gate-answers JobResult.timeout s p = (inl (_, refl), λ h. refl)
  gate-answers JobResult.failed s p = (inl (_, refl), λ h. refl)
  gate-answers JobResult.dependency s p = (inl (_, refl), λ h. refl)
  gate-answers JobResult.skipped s p = (inl (_, refl), λ h. refl)

-- ===== src/Health/Gate/Verdicts.antt =====
-- What ends the gate of internal/health/gate.go: it always ends, and for a reason.
use tidewaiter.Common.{
  ℕ, zero, suc, ◌+◌, ◌≤◌, ◌<◌, String, ◌≡◌, refl, ◌⊎◌, inl, inr, true, false, Option, none, some,
  List, All, Any, ltb, arith, Bool-cases, Option-cases,
}
use tidewaiter.Health.{Result, Verdict, commit, combine}
use tidewaiter.Health.Combine.{Failing, Settled, combine-Says}
use tidewaiter.Health.Gate.{
  Answer, results, errored, answered, World, IsClocked, Ended, decided, given_up, Timing, Round,
  stop, go_on, slept, judge, round, last_look, loop, gate,
}

Answer-cases :
    (a : Answer) → ((rs : List Result) × (a ≡ results rs)) ⊎ ((e : String) × (a ≡ errored e))
Answer-cases (results rs) = inl (rs, refl)
Answer-cases (errored e) = inr (e, refl)

module _ {W : Type 0} (world : World W) (timing : Timing) where
  open world use {now, done, evaluate, sleep}

  -- A moment of the gate that settles it: the results of an evaluation before the deadline, an
  -- evaluation that errored before it, or the last look.
  data Settles (deadline : ℕ) (v : Verdict) : Type 0 where
    polled :
        (w : W) (rs : List Result)
        → now w < deadline
        → (evaluate w).0 ≡ results rs
        → combine rs false ≡ some v
        → Settles deadline v
    broke :
        (w : W) (e : String)
        → now w < deadline
        → (evaluate w).0 ≡ errored e
        → v.healthy ≡ false
        → Settles deadline v
    looked :
        (w : W)
        → deadline ≤ now w
        → combine (answered (evaluate w).0) true ≡ some v
        → Settles deadline v

  slept-go_on :
      (r : Option String × W) (w' : W) → slept world timing r ≡ go_on w' → (r.0 ≡ none) × (r.1 ≡ w')
  unfolding slept
  slept-go_on (none, w) w' h = ground arith
  slept-go_on (some e, w) w' h = cc

  judge-go_on :
      (answer : Answer) (w w' : W)
      → IsClocked world
      → judge world timing answer w ≡ go_on w'
      → now w + timing.poll ≤ now w'
  unfolding judge
  judge-go_on (errored e) w w' clocked h = ground arith
  judge-go_on (results rs) w w' clocked h =
      ground (arith, slept-go_on (sleep timing.poll w) w', clocked.sleep_waits timing.poll w)

  -- A round that goes on has slept for the poll interval.
  round-go_on :
      (w w' : W) → IsClocked world → round world timing w ≡ go_on w' → now w + timing.poll ≤ now w'
  unfolding round
  round-go_on w w' clocked h =
      ground (arith, judge-go_on (evaluate w).0 (evaluate w).1 w' clocked, clocked.evaluate_later w)

  Round-cases : (r : Round W) → ((e : Ended) × (w : W) × (r ≡ stop e w)) ⊎ ((w : W) × (r ≡ go_on w))
  Round-cases (stop e w) = inl (e, w, refl)
  Round-cases (go_on w) = inr (w, refl)

  -- With fuel for every unit until the deadline the loop ends.
  loop_total :
      (fuel deadline : ℕ) (w : W)
      → IsClocked world
      → 0 < timing.poll
      → deadline ≤ now w + fuel
      → (r : Ended × W) × (loop world timing (suc fuel) deadline w ≡ some r)
  unfolding loop
  loop_total zero deadline w clocked p enough = (last_look world timing w, ground arith)
  loop_total (suc fuel) deadline w clocked p enough = elim (Bool-cases (ltb (now w) deadline)) [
    | inr late ↦ (last_look world timing w, ground arith)
    | inl early ↦ elim (Round-cases (round world timing w)) [
      | inl (e, w', h) ↦ ((e, w'), ground arith)
      | inr (w', h) ↦
          let sooner : deadline ≤ now w' + fuel = omega (arith, round-go_on w w' clocked h) in
          let (r, ends) = loop_total fuel deadline w' clocked p sooner in (r, ground arith)
    ]
  ]

  -- The fuel is enough.
  pub gate_ends :
      (w : W) → IsClocked world → 0 < timing.poll → (r : Ended × W) × (gate world timing w ≡ some r)
  unfolding gate
  gate_ends w clocked p =
      loop_total timing.timeout (now w + timing.timeout) w clocked p (omega arith)

  -- A sleep decides nothing.
  slept-decided :
      (r : Option String × W) (v : Verdict) (w : W) → ¬ (slept world timing r ≡ stop (decided v) w)
  unfolding slept
  slept-decided (none, w) v w' h = cc
  slept-decided (some e, w) v w' h = cc

  judge-Settles :
      (deadline : ℕ) (v : Verdict) (w w' : W)
      → now w < deadline
      → judge world timing (evaluate w).0 (evaluate w).1 ≡ stop (decided v) w'
      → Settles deadline v
  unfolding judge
  judge-Settles deadline v w w' early h = elim (Answer-cases (evaluate w).0) [
    | inl (rs, e) ↦
        polled w rs early e (ground (arith, slept-decided (sleep timing.poll (evaluate w).1) v w'))
    | inr (why, e) ↦ broke w why early e (ground arith)
  ]

  round-Settles :
      (deadline : ℕ) (v : Verdict) (w w' : W)
      → now w < deadline
      → round world timing w ≡ stop (decided v) w'
      → Settles deadline v
  unfolding round
  round-Settles deadline v w w' early h = elim (Option-cases (done w)) [
    | inl going ↦ judge-Settles deadline v w w' early (ground arith)
    | inr (cut, e) ↦ absurd (ground arith)
  ]

  last_look-Settles :
      (deadline : ℕ) (v : Verdict) (w w' : W)
      → deadline ≤ now w
      → last_look world timing w ≡ (decided v, w')
      → Settles deadline v
  unfolding last_look
  last_look-Settles deadline v w w' late h =
      looked w late (ground (arith, combine-Says (answered (evaluate w).0) true))

  loop-Settles :
      (fuel deadline : ℕ) (v : Verdict) (w w' : W)
      → loop world timing fuel deadline w ≡ some (decided v, w')
      → Settles deadline v
  unfolding loop
  loop-Settles zero deadline v w w' h = absurd (cc)
  loop-Settles (suc fuel) deadline v w w' h = elim (Bool-cases (ltb (now w) deadline)) [
    | inr late ↦ last_look-Settles deadline v w w' (ground arith) (ground arith)
    | inl early ↦ elim (Round-cases (round world timing w)) [
      | inl (e, u, r) ↦ round-Settles deadline v w w' (ground arith) (ground arith)
      | inr (u, r) ↦ loop-Settles fuel deadline v u w' (ground arith)
    ]
  ]

  -- What speaks for a verdict: against the update, an evaluation with a failing check, or one that
  -- errored before the deadline; for it, an evaluation without a failing check in which every check
  -- passed or was skipped, or that was made at the deadline or after it.
  abbrev pub Grounds : ℕ → Verdict → Type 0
  Grounds deadline v =
      (w : W) × (((v.healthy ≡ false)
          × (Any Failing (answered (evaluate w).0)
              ⊎ ((now w < deadline) × ((e : String) × ((evaluate w).0 ≡ errored e)))))
        ⊎ ((v ≡ commit)
            × All (λ r. ¬ Failing r) (answered (evaluate w).0)
            × ((deadline ≤ now w) ⊎ All Settled (answered (evaluate w).0))))

  Settles-Grounds : (deadline : ℕ) (v : Verdict) → Settles deadline v → Grounds deadline v
  Settles-Grounds deadline v (polled w rs early e c) = (w, ground (arith, combine-Says rs false))
  Settles-Grounds deadline v (broke w why early e un) = (w, inl (un, inr (early, (why, e))))
  Settles-Grounds deadline v (looked w late c) =
      (w, ground (arith, combine-Says (answered (evaluate w).0) true))

  -- The gate rolls back only where some evaluation of the checks had a failing one, or errored before
  -- the deadline; and it commits only where in some evaluation no check failed, and all passed or were
  -- skipped or the deadline was there.
  pub gate-Grounds :
      (v : Verdict) (w w' : W)
      → gate world timing w ≡ some (decided v, w')
      → Grounds (now w + timing.timeout) v
  unfolding gate
  gate-Grounds v w w' h =
      Settles-Grounds (now w + timing.timeout) v
        (loop-Settles (suc timing.timeout) (now w + timing.timeout) v w w' h)

  -- A moment at which the gate's context was done: its own error, or that of the sleep it cut off.
  abbrev pub IsCut : String → Type 0
  IsCut e = (w : W) × ((done w ≡ some e) ⊎ ((sleep timing.poll w).0 ≡ some e))

  slept-IsCut :
      (e : String) (w w' : W)
      → slept world timing (sleep timing.poll w) ≡ stop (given_up e) w'
      → IsCut e
  unfolding slept
  slept-IsCut e w w' h = elim (Option-cases (sleep timing.poll w).0) [
    | inl n ↦ absurd (ground arith)
    | inr (cut, n) ↦ (w, ground arith)
  ]

  judge-IsCut :
      (e : String) (answer : Answer) (w w' : W)
      → judge world timing answer w ≡ stop (given_up e) w'
      → IsCut e
  unfolding judge
  judge-IsCut e (errored why) w w' h = elim (Option-cases (done w)) [
    | inl n ↦ absurd (ground arith)
    | inr (cut, n) ↦ (w, ground arith)
  ]
  judge-IsCut e (results rs) w w' h = elim (Option-cases (combine rs false)) [
    | inl n ↦ slept-IsCut e w w' (ground arith)
    | inr (v, n) ↦ absurd (ground arith)
  ]

  round-IsCut : (e : String) (w w' : W) → round world timing w ≡ stop (given_up e) w' → IsCut e
  unfolding round
  round-IsCut e w w' h = elim (Option-cases (done w)) [
    | inl going ↦ judge-IsCut e (evaluate w).0 (evaluate w).1 w' (ground arith)
    | inr (cut, n) ↦ (w, ground arith)
  ]

  last_look-IsCut : (e : String) (w w' : W) → last_look world timing w ≡ (given_up e, w') → IsCut e
  unfolding last_look
  last_look-IsCut e w w' h = elim (Option-cases (done w)) [
    | inl going ↦ absurd (ground arith)
    | inr (cut, n) ↦ (w, ground arith)
  ]

  loop-IsCut :
      (fuel deadline : ℕ) (e : String) (w w' : W)
      → loop world timing fuel deadline w ≡ some (given_up e, w')
      → IsCut e
  unfolding loop
  loop-IsCut zero deadline e w w' h = absurd (cc)
  loop-IsCut (suc fuel) deadline e w w' h = elim (Bool-cases (ltb (now w) deadline)) [
    | inr late ↦ last_look-IsCut e w w' (ground arith)
    | inl early ↦ elim (Round-cases (round world timing w)) [
      | inl (end, u, r) ↦ round-IsCut e w w' (ground arith)
      | inr (u, r) ↦ loop-IsCut fuel deadline e u w' (ground arith)
    ]
  ]

  -- What there is for an end of the gate.
  abbrev pub Reasons : ℕ → Ended → Type 0
  Reasons deadline (decided v) = Grounds deadline v
  Reasons deadline (given_up e) = IsCut e

  gate-Reasons :
      (w : W) (r : Ended × W) → gate world timing w ≡ some r → Reasons (now w + timing.timeout) r.0
  unfolding gate
  gate-Reasons w (decided v, w') h = gate-Grounds v w w' h
  gate-Reasons w (given_up e, w') h =
      loop-IsCut (suc timing.timeout) (now w + timing.timeout) e w w' h

  -- A gate that polls at all, on a clock that an evaluation does not put back and that a sleep moves on,
  -- ends within the fuel it is given: with a verdict that an evaluation speaks for, or with the error of
  -- its context, that it found done or that cut a sleep off.
  pub gate_total :
      (w : W)
      → IsClocked world
      → 0 < timing.poll
      → (r : Ended × W) × (gate world timing w ≡ some r) × Reasons (now w + timing.timeout) r.0
  gate_total w clocked p = let (r, h) = gate_ends w clocked p in (r, h, gate-Reasons w r h)

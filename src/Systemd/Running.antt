-- ===== src/Systemd/Running.antt =====
-- `reconcile` of internal/systemd/source.go, of a unit that has been seen before: what is decided over a
-- sample, and carried out.
use tidewaiter.Common.{
  ℕ, suc, String, ◌+s◌, Bool, true, false, not, ◌&&◌, Option, none, some, Map, lookup, insert,
  if◌then◌else◌, str_eq, leb,
}
use tidewaiter.Decide
use tidewaiter.Source.{Table, Outcome, sampled, Answer, answered, errored, Run, holding}
use tidewaiter.Systemd.Unit.{UnitState, is_up, is_stopped}
use tidewaiter.Systemd.Settings.{Policy}
use tidewaiter.Systemd.State.{UnitMemory, Kept, State, Deps, say, memory_of}
use tidewaiter.Systemd.Sample.{sample}
use tidewaiter.Systemd.Update.{swap, update_stopped}

abbrev pub keep : String → Decide.Action
keep why = Decide.plain Decide.keep why

-- `unsampled` and `sampled`.
abbrev pub unsampled_as : String → Decide.Action → Outcome
unsampled_as unit action = record { workload = unit; action = action; busy = none; settled = false }

abbrev pub sampled_as : String → Decide.Action → Bool → Bool → Outcome
sampled_as unit action busy settled = record {
  workload = unit;
  action = action;
  busy = sampled busy;
  settled = settled;
}

-- A pin, and a run of swap failures, that `desired` has moved on from.
abbrev pub still_pinned : String → UnitMemory → UnitMemory
still_pinned desired m =
    if not (str_eq m.pinned "") && not (str_eq m.pinned desired)
    then record m { pinned = "" }
    else m

abbrev pub still_failing : String → UnitMemory → UnitMemory
still_failing desired m =
    if not (str_eq m.failing "") && not (str_eq m.failing desired)
    then record m { failing = ""; swap_failures = 0 }
    else m

abbrev pub count_of : String → Map ℕ → ℕ
count_of unit streaks = elim (lookup unit streaks) [ none ↦ 0 | some n ↦ n ]

-- The streak of a unit that is neither in use nor on its way up or down.
abbrev pub streak_after : String → Bool → Bool → Kept → ℕ
streak_after unit in_use transitional k =
    if not in_use && not transitional then suc (count_of unit k.streaks) else 0

abbrev pub was_seen : String → Kept → Bool
was_seen unit k = elim (lookup unit k.seen) [ none ↦ false | some b ↦ b ]

abbrev pub settling : UnitState → Decide.Action
settling state =
    Decide.plain Decide.defer ("the unit is " +s state.active_state +s "; waiting for it to settle")

abbrev pub decision : Policy → UnitMemory → String → Bool → ℕ → Decide.Action
decision policy m current in_use streak =
    Decide.decide
      (record {
        idle_samples = policy.idle_samples;
        current = current;
        desired = policy.desired;
        in_use = in_use;
        idle_streak = streak;
      })
      (record { pinned = m.pinned }) Decide.unit_words

-- Whether the unit is between states, with a version waiting that is not pinned out.
abbrev pub must_settle : Policy → UnitState → String → Kept → Bool
must_settle policy state current k =
    not (is_up state)
    && not (str_eq current policy.desired)
    && not (str_eq (memory_of policy.unit k).pinned policy.desired)

module _ {W : Type 0} (deps : Deps W) where
  open deps use {dry_run, unit}

  -- What comes after a unit's outcome, or its error.
  abbrev pub Then : Type 0
  Then = Answer Outcome → State W → Run (State W)

  -- The outcome of an update that was carried out.
  abbrev pub swapped : Policy → Decide.Action → Answer (Option Decide.Action) → Answer Outcome
  swapped policy action (errored e) = errored e
  swapped policy action (answered none) = answered (sampled_as policy.unit action false false)
  swapped policy action (answered (some other)) =
      answered (sampled_as policy.unit other false false)

  -- The case of an update, from `pass.Hold` on.
  unfoldable pub update :
      Policy → UnitState → String → ℕ → Decide.Action → Then → State W → Run (State W)
  unfolding swap
  update policy state current n action next s =
      let (answer, s') = swap deps policy state current n s in
      next (swapped policy action answer) s'

  -- The switch of `reconcile`.
  unfoldable pub act :
      Policy → UnitState → String → ℕ → Decide.Action → Bool → Bool → Then → State W → Run (State W)
  unfolding update
  act policy state current n action in_use settled next (k, w) =
      let usual = answered (sampled_as policy.unit action in_use settled) in
      elim (action.kind) [
        | Decide.defer ↦ next usual (say (policy.unit +s ": " +s action.reason) k, w)
        | Decide.update ↦
            let told = say (policy.unit +s ": updating - " +s action.reason) k in
            if dry_run
            then next usual (say (policy.unit +s ": dry run, not touching it") told, w)
            else holding (told, w) policy.unit (update policy state current n action next)
        | _ ↦ next usual (k, w)
      ]

  -- `reconcile` of a unit that runs.
  unfoldable pub running : Table → Policy → UnitState → String → ℕ → Then → State W → Run (State W)
  unfolding act
  running table policy state current n next s =
      let (activity, (k, w)) = sample deps policy state table false s in
      let streak = streak_after policy.unit activity.in_use (not (is_up state)) k in
      let k' = record k { streaks = insert policy.unit streak k.streaks } in
      if must_settle policy state current k'
      then next (answered (sampled_as policy.unit (settling state) activity.in_use false))
          (say (policy.unit +s ": " +s (settling state).reason) k', w)
      else act policy state current n
          (decision policy (memory_of policy.unit k') current activity.in_use streak)
          activity.in_use (not activity.in_use && leb policy.idle_samples streak) next (k', w)

  -- `reconcile` from where the unit has been seen before.
  unfoldable pub seen_before :
      Table → Policy → UnitState → String → ℕ → Then → State W → Run (State W)
  unfolding update_stopped running
  seen_before table policy state current n next s =
      if is_stopped state
      then (let (action, s') = update_stopped deps policy current s in
          next (answered (sampled_as policy.unit action false true)) s')
      else running table policy state current n next s

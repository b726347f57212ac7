-- ===== src/Systemd/Pass.antt =====
-- `reconcile`, `Once` and `Activity` of internal/systemd/source.go, as the source that the daemon runs.
use tidewaiter.Common.{
  ℕ, String, ◌+s◌, Bool, true, false, ◌||◌, Option, none, some, List, [], ◌∷◌, ◌++◌, insert,
  if◌then◌else◌, str_eq,
}
use tidewaiter.Decide
use tidewaiter.Source.{Table, Outcome, Activity, Answer, answered, errored, Run, finished, Source}
use tidewaiter.Systemd.Unit.{UnitState, is_stopped}
use tidewaiter.Systemd.Settings.{Policy}
use tidewaiter.Systemd.State.{Kept, State, Deps, say, memory_of, remember, note, ◌>>=◌}
use tidewaiter.Systemd.Files.{policies, load}
use tidewaiter.Systemd.Sample.{sample, read_profile}
use tidewaiter.Systemd.Swap.{save}
use tidewaiter.Systemd.Sight.{first_sight}
use tidewaiter.Systemd.Running.{
  keep, unsampled_as, sampled_as, still_pinned, still_failing, was_seen, seen_before, Then,
}

module _ {W : Type 0} (deps : Deps W) where
  open deps use {dry_run, unit}

  abbrev pub unreadable : Policy → Answer Outcome
  unreadable policy = answered (unsampled_as policy.unit (keep "profile unreadable"))

  -- The unit and its profile are read again after the first look.
  unfoldable pub look_again : Table → Policy → Then deps → State W → Run (State W)
  unfolding read_profile seen_before
  look_again table policy next (k, w) =
      let (answer, w') = unit policy.unit w in
      elim answer [
        | errored e ↦ next (errored e) (k, w')
        | answered state ↦
            let (found, s) = read_profile deps policy (k, w') in
            elim found [
              | none ↦ next (unreadable policy) s
              | some (current, n) ↦ seen_before deps table policy state current n next s
            ]
      ]

  abbrev pub after_sight :
      Table → Policy → Then deps → Answer (Option Decide.Action) → State W → Run (State W)
  after_sight table policy next (errored e) s = next (errored e) s
  after_sight table policy next (answered (some action)) s =
      next (answered (sampled_as policy.unit action false false)) s
  after_sight table policy next (answered none) s = look_again table policy next s

  -- `reconcile` from its memory on.
  unfoldable pub remembered :
      Table → Policy → UnitState → String → ℕ → Then deps → State W → Run (State W)
  unfolding first_sight seen_before look_again
  remembered table policy state current n next (k, w) =
      let m =
        still_failing policy.desired (still_pinned policy.desired (memory_of policy.unit k)) in
      let k1 = remember policy.unit m k in
      if was_seen policy.unit k1
      then seen_before deps table policy state current n next (k1, w)
      else first_sight deps policy state current n (after_sight table policy next)
          (record k1 { seen = insert policy.unit true k1.seen }, w)

  unfoldable pub on_state : Table → Policy → Then deps → UnitState → State W → Run (State W)
  unfolding read_profile remembered
  on_state table policy next state (k, w) =
      if str_eq state.load_state "not-found"
      then next (answered (sampled_as policy.unit (keep "no such unit") false true)) (
        note policy.unit "not-found"
            (policy.unit +s ": systemd does not know this unit; leaving it alone") k,
        w,
      )
      else let (found, s) = read_profile deps policy (k, w) in
        elim found [
          | none ↦ next (unreadable policy) s
          | some (current, n) ↦ remembered table policy state current n next s
        ]

  -- `reconcile`.
  unfoldable pub reconcile : Table → Policy → Then deps → State W → Run (State W)
  unfolding on_state
  reconcile table policy next (k, w) =
      let (answer, w') = unit policy.unit w in
      elim answer [
        | errored e ↦ next (answered (unsampled_as policy.unit (keep "systemd unreachable"))) (
          say
              (policy.unit +s ": could not read the unit from systemd (" +s e
                +s "); leaving it alone")
              k,
          w',
        )
        | answered state ↦ on_state table policy next state (k, w')
      ]

  -- What an error of `reconcile` becomes.
  abbrev pub outcome_or_error : Policy → Answer Outcome → Kept → Outcome × Kept
  outcome_or_error policy (answered o) k = (o, k)
  outcome_or_error policy (errored e) k =
      (unsampled_as policy.unit (keep "errored"), say (policy.unit +s ": Error: " +s e) k)

  -- The loop of `Once`, and its save.
  unfoldable pub reconcile_all : Table → List Policy → List Outcome → State W → Run (State W)
  unfolding reconcile
  reconcile_all table [] outcomes s = finished (save deps s).1 (answered outcomes)
  reconcile_all table (p ∷ ps) outcomes s =
      reconcile table p
        (λ answer (k, w).
          let (o, k') = outcome_or_error p answer k in
          reconcile_all table ps (outcomes ++ o ∷ []) (k', w))
        s

  -- `Once`.
  unfoldable pub once : Table → State W → Run (State W)
  unfolding load policies reconcile_all
  once table s =
      let (answer, s') = (load deps >>= λ _. policies deps) s in
      elim answer [
        | errored e ↦ finished s' (errored e)
        | answered found ↦ reconcile_all table found [] s'
      ]

  -- One unit of `Activity`.
  unfoldable pub busy_now : Table → Policy → Answer UnitState → State W → Bool × State W
  busy_now table policy (errored e) s = (true, s)
  busy_now table policy (answered state) s =
      if str_eq state.load_state "not-found" || is_stopped state
      then (false, s)
      else let (result, s') = sample deps policy state table true s in (result.in_use, s')

  -- The loop of `Activity`.
  unfoldable pub sample_all : Table → List Policy → State W → List Activity × State W
  unfolding busy_now
  sample_all table [] s = ([], s)
  sample_all table (p ∷ ps) (k, w) =
      let (answer, w') = unit p.unit w in
      let (busy, s) = busy_now table p answer (k, w') in
      let (rest, s') = sample_all table ps s in
      (record { workload = p.unit; busy = busy } ∷ rest, s')

  -- `Activity`.
  unfoldable pub activity : Table → State W → Answer (List Activity) × State W
  unfolding policies sample_all
  activity table s =
      let (answer, s') = policies deps s in
      elim answer [
        | errored e ↦ (errored e, s')
        | answered found ↦
            let (activities, s'') = sample_all table found s' in (answered activities, s'')
      ]

  -- The source as the daemon has it.
  abbrev pub systemd : Source (State W)
  systemd = record { name = "systemd"; once = once; activity = activity }

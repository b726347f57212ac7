-- ===== src/Systemd/Update.antt =====
-- `swap` and `updateStopped` of internal/systemd/source.go: what an update does to a unit that runs, and
-- to one that does not.
use tidewaiter.Common.{
  ℕ, String, ◌+s◌, Bool, true, false, Option, none, some, insert, if◌then◌else◌, str_eq,
}
use tidewaiter.Decide
use tidewaiter.Health.{Verdict}
use tidewaiter.Source.{Answer, answered, errored}
use tidewaiter.Systemd.Unit.{UnitState}
use tidewaiter.Systemd.Settings.{Policy}
use tidewaiter.Systemd.State.{
  SwapRecord, no_memory, Kept, State, Failure, Deps, say, memory_of, remember, generation_ref, Call,
  ◌>>◌, tell,
}
use tidewaiter.Systemd.Sample.{sample, dump_conntrack}
use tidewaiter.Systemd.Gate.{gate}
use tidewaiter.Systemd.Swap.{
  Change, cleared, pinned_out, count_failure, save, when, undo, roll_back,
}

-- `from` of a swap, as it is recorded.
abbrev pub record_of : String → String → String → ℕ → SwapRecord
record_of desired invocation_id current previous = record {
  from = generation_ref previous;
  from_target = current;
  to = desired;
  invocation_id = invocation_id;
}

-- What a swap that someone arrived before, or that could not be recorded, turns into.
abbrev pub deferred : String → Decide.Action
deferred why = Decide.plain Decide.defer why

-- The streak starts again.
abbrev pub interrupted : String → Kept → Kept
interrupted unit k =
    say (unit +s ": someone arrived just before the swap; deferring")
      (record k { streaks = insert unit 0 k.streaks })

abbrev pub said_prune : String → Failure → Kept → Kept
said_prune unit none k = k
said_prune unit (some e) k =
    say (unit +s ": updated, but pruning old generations failed (" +s e +s ")") k

abbrev pub generation_or_none : Answer ℕ → ℕ
generation_or_none (answered n) = n
generation_or_none (errored e) = 0

module _ {W : Type 0} (deps : Deps W) where
  open deps use {dry_run, restart, daemon_reload, generation, set_profile, prune, bind}

  -- The part of `change` from `Profiles.Set` on.
  abbrev pub set_and_restart : Policy → Bool → W → Change × W
  set_and_restart policy bound w =
      let (failure, w') = set_profile policy.profile policy.desired w in
      elim failure [
        | some e ↦ (record { bound = bound; set = false; ended = errored e }, w')
        | none ↦
            let (job, w'') = restart policy.unit w' in
            (record { bound = bound; set = true; ended = job }, w'')
      ]

  -- The function of `swap` that changes the profile, and how far it got.
  unfoldable pub change : Policy → W → Change × W
  change policy w =
      if policy.bind_closure
      then (let (failure, w') = bind policy.unit policy.profile policy.desired w in
          elim failure [
            | some e ↦ (record { bound = false; set = false; ended = errored e }, w')
            | none ↦
                let (failure', w'') = daemon_reload w' in
                elim failure' [
                  | some e ↦ (record { bound = true; set = false; ended = errored e }, w'')
                  | none ↦ set_and_restart policy true w''
                ]
          ])
      else set_and_restart policy false w

  -- A swap that failed before its gate.
  unfoldable pub failed_early :
      Policy → UnitState → String → ℕ → Change → String → State W → State W
  failed_early policy before current previous got e (k, w) =
      let told =
        say (policy.unit +s ": FAILED during swap (" +s e +s "); undoing what was done") k in
      let (k1, w1) = undo deps policy before current previous got.bound got.set (told, w) in
      let k2 = remember policy.unit (cleared (memory_of policy.unit k1)) k1 in
      (save deps (count_failure policy.unit policy.desired k2, w1)).1

  -- A swap that its gate found healthy.
  unfoldable pub committed : Policy → State W → State W
  committed policy (k, w) =
      let (good, w1) = generation policy.profile w in
      let (failure, w2) = prune policy.profile policy.keep_generations w1 in
      let k1 = said_prune policy.unit failure k in
      let good_memory = record no_memory { good = generation_ref (generation_or_none good) } in
      let (k2, w3) = (save deps (remember policy.unit good_memory k1, w2)).1 in
      (say (policy.unit +s ": updated to " +s policy.desired +s " and it is healthy") k2, w3)

  -- A swap that its gate found unhealthy.
  unfoldable pub rejected : Policy → String → ℕ → String → State W → State W
  rejected policy current previous why (k, w) =
      let told =
        say (policy.unit +s ": the new version is unhealthy (" +s why +s "); rolling back") k in
      let (k1, w1) = roll_back deps policy previous current (told, w) in
      (save deps
        (remember policy.unit (pinned_out policy.desired (memory_of policy.unit k1)) k1, w1)).1

  -- The end of `swap`, from the gate's verdict.
  unfoldable pub judged :
      Policy → String → ℕ → Answer Verdict × State W → Answer (Option Decide.Action) × State W
  unfolding committed rejected
  judged policy current previous (errored e, s) = (errored e, s)
  judged policy current previous (answered v, s) =
      if v.healthy
      then (answered none, committed policy s)
      else (answered none, rejected policy current previous v.reason s)

  -- `swap` from its record on.
  unfoldable pub carried_out : Policy → UnitState → String → ℕ → Call W (Option Decide.Action)
  unfolding change failed_early judged
  carried_out policy before current previous (k, w) =
      let (got, w') = change policy w in
      elim (got.ended) [
        | errored e ↦ (answered none, failed_early policy before current previous got e (k, w'))
        | answered job ↦ judged policy current previous (gate deps policy job (k, w'))
      ]

  -- The part of `swap` that records it.
  unfoldable pub recorded : Policy → UnitState → String → ℕ → Call W (Option Decide.Action)
  unfolding carried_out
  recorded policy before current previous (k, w) =
      let m = memory_of policy.unit k in
      let noted = record m {
        swapping = some (record_of policy.desired before.invocation_id current previous);
      } in
      let (durable, (k', w')) = save deps (remember policy.unit noted k, w) in
      if durable then carried_out policy before current previous (k', w') else (
        answered (some (deferred "could not record the swap before starting it")),
        (remember policy.unit (cleared m) k', w'),
      )

  -- `swap`.
  unfoldable pub swap : Policy → UnitState → String → ℕ → Call W (Option Decide.Action)
  unfolding recorded
  swap policy before current previous (k, w) =
      let (table, w1) = dump_conntrack deps w in
      let (fresh, (k2, w2)) = sample deps policy before table false (k, w1) in
      if fresh.in_use
      then (
        answered (some (deferred "someone arrived just before the swap")),
        (interrupted policy.unit k2, w2),
      )
      else recorded policy before current previous (k2, w2)

  -- The calls of `updateStopped`.
  unfoldable pub move_profile : Policy → Call W (Unit {0})
  move_profile policy =
      when deps policy.bind_closure (tell (bind policy.unit policy.profile policy.desired))
      >> tell (set_profile policy.profile policy.desired)
      >> when deps policy.bind_closure (tell daemon_reload)

  abbrev pub move_of : Policy → String → Decide.Action
  move_of policy current = record {
    kind = Decide.update;
    from = current;
    to = policy.desired;
    reason = "the unit is stopped";
  }

  -- `updateStopped`.
  unfoldable pub update_stopped : Policy → String → State W → Decide.Action × State W
  unfolding move_profile
  update_stopped policy current (k, w) =
      if str_eq current policy.desired
      then (Decide.plain Decide.keep Decide.unit_words.keep, (k, w))
      else if str_eq (memory_of policy.unit k).pinned policy.desired
      then (Decide.plain Decide.pinned Decide.unit_words.pinned, (k, w))
      else if dry_run
      then (
        move_of policy current,
        (
          say
              (policy.unit +s ": stopped; would move its profile to " +s policy.desired
                +s " (dry run)")
              k,
          w,
        ),
      )
      else let (answer, (k', w')) = move_profile policy (k, w) in
        elim answer [
          | errored e ↦ (
            Decide.plain Decide.keep "profile update failed",
            (
              say (policy.unit +s ": could not move the stopped unit's profile (" +s e +s ")") k',
              w',
            ),
          )
          | answered _ ↦ (
            move_of policy current,
            (
              say
                  (policy.unit +s ": updated the profile of a stopped unit to " +s policy.desired
                    +s "; it runs that when next started")
                  k',
              w',
            ),
          )
        ]

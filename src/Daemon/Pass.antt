-- ===== src/Daemon/Pass.antt =====
-- The pass and the activity tick of internal/daemon/daemon.go. `pass.Hold` runs inside a source's
-- call, and the daemon's state is threaded through it. The line that `Tick` skips when a pass has the
-- turn is an argument: whether the turn was free.
use tidewaiter.Common.{
  ℕ, zero, suc, String, ◌+s◌, Bool, true, false, not, ◌&&◌, Option, none, some, List, [], ◌∷◌, ◌++◌,
  map, Map, lookup, insert, has_key, if◌then◌else◌, str_eq, ltb, is_empty, length, join, count,
  decimal, set_add,
}
use tidewaiter.Decide
use tidewaiter.Decide.{Action}
use tidewaiter.Source.{
  Source, Table, Outcome, Activity, Answer, answered, errored, Run, finished, holding,
}
use tidewaiter.Detect.{ConntrackEntry}
use tidewaiter.Daemon.State.{
  Verdicts, no_verdicts, Daemon, Deps, State, log, log_error, verdicts_of,
}
use tidewaiter.Daemon.Publish.{publish}

-- How a problem with conntrack is remembered, and logged once; `none` is "could not tell".
abbrev pub dumped : Answer (List ConntrackEntry) → Daemon → Table × Daemon
dumped (answered entries) d = (some entries, record d { last_conntrack_error = "" })
dumped (errored e) d = (
  none,
  if str_eq e d.last_conntrack_error
      then d
      else log ("Warning: could not read conntrack (" +s e +s "); assuming busy where it matters")
          (record d { last_conntrack_error = e }),
)

-- One outcome of the loop of `record`, over the verdicts of the last pass.
abbrev pub note_outcome : Map Bool → Outcome → Verdicts → Verdicts
note_outcome previous o next = record {
  order = if has_key o.workload next.settled then next.order else next.order ++ o.workload ∷ [];
  busy = elim (o.busy) [
    | some b ↦ insert o.workload b next.busy
    | none ↦ elim (lookup o.workload previous) [
      | some b ↦ insert o.workload b next.busy
      | none ↦ next.busy
    ]
  ];
  settled = insert o.workload o.settled next.settled;
}

abbrev pub note_outcomes : Map Bool → List Outcome → Verdicts → Verdicts
note_outcomes previous [] next = next
note_outcomes previous (o ∷ os) next = note_outcomes previous os (note_outcome previous o next)

-- `record`.
unfoldable pub record_outcomes : String → List Outcome → Daemon → Daemon
record_outcomes name outcomes d = record d {
  seen = insert name (note_outcomes (verdicts_of name d).busy outcomes no_verdicts) d.seen;
}

-- The first loop over a source's activity.
abbrev pub note_activities : List Activity → List String × Map Bool → List String × Map Bool
note_activities [] acc = acc
note_activities (a ∷ rest) (order, busy) = note_activities rest (
  if has_key a.workload busy then order else order ++ a.workload ∷ [],
  insert a.workload a.busy busy,
)

-- The second: a workload of the last pass that the tick did not report is still listed.
abbrev pub still_listed : List String → Map Bool → Map Bool → List String
still_listed [] busy settled = []
still_listed (workload ∷ rest) busy settled =
    if not (has_key workload busy) && has_key workload settled
    then workload ∷ still_listed rest busy settled
    else still_listed rest busy settled

-- What a source's activity does to its verdicts.
unfoldable pub note_activity : List Activity → Verdicts → Verdicts
note_activity activity v =
    let (order, busy) = note_activities activity ([], []) in
    record v { order = order ++ still_listed v.order busy v.settled; busy = busy }

-- `summarise`: the parts with a count above zero.
abbrev pub part : ℕ → String → List String → List String
part zero name rest = rest
part (suc n) name rest = (decimal (suc n) +s " " +s name) ∷ rest

abbrev pub same_kind : Decide.Kind → Decide.Kind → Bool
same_kind Decide.keep Decide.keep = true
same_kind Decide.update Decide.update = true
same_kind Decide.defer Decide.defer = true
same_kind Decide.pinned Decide.pinned = true
same_kind _ _ = false

abbrev pub is_kind : Decide.Kind → Action → Bool
is_kind k a = same_kind k a.kind

abbrev pub unchanged : ℕ → String → String
unchanged zero noun = "No " +s noun +s "s to manage"
unchanged (suc zero) noun = "1 " +s noun +s " up to date, nothing to do"
unchanged (suc (suc n)) noun = decimal (suc (suc n)) +s " " +s noun +s "s up to date, nothing to do"

unfoldable pub summarise : List Action → String → String
summarise actions noun =
    let kept = count (is_kind Decide.keep) actions in
    let changes = part (count (is_kind Decide.update) actions) "updated" (
      part (count (is_kind Decide.defer) actions) "deferred"
        (part (count (is_kind Decide.pinned) actions) "pinned out" [])) in
    if is_empty changes
    then unchanged kept noun
    else join ", " (changes ++ (decimal kept +s " up to date") ∷ [])

-- The distinct names of the sources.
abbrev pub source_names : {W : Type 0} → List (Source W) → List String
source_names [] = []
source_names (s ∷ rest) = set_add s.name (source_names rest)

abbrev pub noun_of : List String → String
noun_of (name ∷ []) = if str_eq name "docker" then "container" else "unit"
noun_of _ = "workload"

module _ {W : Type 0} (deps : Deps W) where
  open deps use {sources, dump}

  -- `noun`.
  abbrev pub noun : String
  noun = noun_of (source_names sources)

  -- `dumpConntrack`.
  unfoldable pub dump_conntrack : State W → Table × State W
  dump_conntrack (d, w) =
      let (answer, w') = dump w in let (table, d') = dumped answer d in (table, (d', w'))

  -- `pass.Hold`.
  unfoldable pub hold : String → State W → State W
  hold workload (d, w) = publish deps (record d { held = set_add workload d.held }, w)

  -- A source's pass, to its answer.
  unfoldable pub run_source : Run W → Daemon → Answer (List Outcome) × State W
  unfolding hold
  run_source (finished w answer) d = (answer, (d, w))
  run_source (holding w workload go_on) d =
      let (d', w') = hold workload (d, w) in run_source (go_on w') d'

  -- What a source's answer does: recorded, or logged where there are several sources.
  abbrev pub take_answer :
      String
      → Answer (List Outcome)
      → List Outcome × Option String
      → Daemon
      → (List Outcome × Option String) × Daemon
  take_answer name (answered own) (outcomes, failure) d =
      ((outcomes ++ own, failure), record_outcomes name own d)
  take_answer name (errored e) (outcomes, failure) d = (
    (outcomes, elim failure [ none ↦ some e | some first ↦ some first ]),
    if ltb 1 (length sources) then log_error (name +s ": Error: " +s e) d else d,
  )

  -- The loop over the sources.
  unfoldable pub run_sources :
      Table
      → List (Source W)
      → List Outcome × Option String
      → State W
      → (List Outcome × Option String) × State W
  unfolding run_source
  run_sources table [] acc (d, w) = (acc, (d, w))
  run_sources table (s ∷ rest) acc (d, w) =
      let (answer, after) = run_source (s.once table w) d in
      let (acc', d') = take_answer s.name answer acc after.0 in
      run_sources table rest acc' (d', after.1)

  -- The end of `Once`.
  abbrev pub conclude : List Outcome × Option String → State W → Answer (List Outcome) × State W
  conclude (outcomes, some failure) (d, w) =
      (errored failure, publish deps (record d { held = []; last_failure = failure }, w))
  conclude (outcomes, none) (d, w) =
      let summary = summarise (map (λ o. o.action) outcomes) noun in
      let (d', w') =
        publish deps (record d { held = []; last_summary = summary; last_failure = "" }, w) in
      (answered outcomes, ((if str_eq summary d.last_summary then d' else log summary d'), w'))

  -- `Once`.
  unfoldable pub once : State W → Answer (List Outcome) × State W
  unfolding dump_conntrack run_sources
  once s =
      let (table, s') = dump_conntrack s in
      let (acc, s'') = run_sources table sources ([], none) s' in conclude acc s''

  -- One source of `readActivityHoldingTheTurn`.
  abbrev pub take_activity : String → Answer (List Activity) → Bool → Daemon → Bool × Daemon
  take_activity name (errored e) all_answered d = (false, d)
  take_activity name (answered activity) all_answered d = (
    all_answered,
    record d { seen = insert name (note_activity activity (verdicts_of name d)) d.seen },
  )

  unfoldable pub read_sources : Table → List (Source W) → Bool → State W → Bool × State W
  read_sources table [] all_answered s = (all_answered, s)
  read_sources table (s ∷ rest) all_answered (d, w) =
      let (answer, w') = s.activity table w in
      let (ok, d') = take_activity s.name answer all_answered d in
      read_sources table rest ok (d', w')

  -- `readActivity`: whether every source answered.
  unfoldable pub read_activity : State W → Bool × State W
  unfolding dump_conntrack read_sources
  read_activity s = let (table, s') = dump_conntrack s in read_sources table sources true s'

  -- `Tick`.
  unfoldable pub tick : Bool → State W → State W
  unfolding read_activity
  tick turn_free s = publish deps (if turn_free then (read_activity s).1 else s)

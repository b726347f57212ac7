-- ===== src/Daemon/Ticks.antt =====
-- What an activity reading of internal/daemon/daemon.go changes: the busy verdicts, and nothing that an
-- update or a reboot waits for.
use tidewaiter.Common.{
  String, ◌≡◌, refl, ap, ◌∙◌, inl, inr, Bool, true, false, Option, none, some, List, [], ◌∷◌, ◌++◌,
  Elem, Map, lookup, insert, if◌then◌else◌, arith, eq_iff, str_eq, has_key, lookup-insert,
  Elem-append,
}
use tidewaiter.Detect.{ConntrackEntry}
use tidewaiter.Source.{Source, Table, Activity, Answer, answered, errored}
use tidewaiter.Daemon.State.{Verdicts, Daemon, Deps, State, verdicts_of}
use tidewaiter.Daemon.Publish.{publish}
use tidewaiter.Daemon.Keeps.{Keeps, publish-Keeps}
use tidewaiter.Daemon.Pass.{
  dumped, dump_conntrack, note_activities, still_listed, note_activity, take_activity, read_sources,
  read_activity, tick,
}

-- The last report of a workload, if it is reported.
abbrev pub last_report : String → List Activity → Option Bool
last_report x [] = none
last_report x (a ∷ rest) = elim (last_report x rest) [
  | some b ↦ some b
  | none ↦ if str_eq a.workload x then some a.busy else none
]

or_else : Option Bool → Option Bool → Option Bool
or_else none later = later
or_else (some b) later = some b

note_activities-busy :
    (x : String) (activity : List Activity) (order : List String) (busy : Map Bool)
    → lookup x (note_activities activity (order, busy)).1
      ≡ or_else (last_report x activity) (lookup x busy)
unfolding or_else
note_activities-busy x [] order busy = refl
note_activities-busy x (a ∷ rest) order busy = ground (
  arith,
  note_activities-busy x rest (if has_key a.workload busy then order else order ++ a.workload ∷ [])
      (insert a.workload a.busy busy),
  lookup-insert a.workload x a.busy busy,
)

-- A workload that was listed and that the last pass knew is still among the listed ones.
still_listed_complete :
    (x : String) (order : List String) (busy settled : Map Bool)
    → Elem x order
    → has_key x settled ≡ true
    → has_key x busy ≡ false
    → Elem x (still_listed order busy settled)
still_listed_complete x [] busy settled m k n = m
still_listed_complete x (y ∷ order) busy settled (inl e) k n = rw e (ground arith)
still_listed_complete x (y ∷ order) busy settled (inr m) k n =
    ground (arith, still_listed_complete x order busy settled m k n)

-- What is reported is listed.
note_activities-order :
    (x : String) (activity : List Activity) (order : List String) (busy : Map Bool)
    → (has_key x busy ≡ true → Elem x order)
    → has_key x (note_activities activity (order, busy)).1 ≡ true
    → Elem x (note_activities activity (order, busy)).0
note_activities-order x [] order busy h k = h k
note_activities-order x (a ∷ rest) order busy h k =
    note_activities-order x rest
      (if has_key a.workload busy then order else order ++ a.workload ∷ [])
      (insert a.workload a.busy busy)
      (λ m. ground (
        arith,
        lookup-insert a.workload x a.busy busy,
        eq_iff a.workload x,
        h,
        Elem-append x order (a.workload ∷ []),
      ))
      k

-- A reading of a source's activity sets the busy verdict of a workload to its last report, and leaves
-- one that is not reported without a verdict; it changes no workload's settledness; and a listed
-- workload that the last pass knew stays listed, so that a reboot keeps waiting on it.
pub note_activity_lem :
    (x : String) (activity : List Activity) (v : Verdicts)
    → (lookup x (note_activity activity v).busy ≡ last_report x activity)
      × ((note_activity activity v).settled ≡ v.settled)
      × (Elem x v.order → has_key x v.settled ≡ true → Elem x (note_activity activity v).order)
unfolding note_activity or_else
note_activity_lem x activity v = (
  ground (arith, note_activities-busy x activity [] []),
  refl,
  λ m k. ground (
    arith,
    note_activities-order x activity [] [],
    still_listed_complete x v.order (note_activities activity ([], [])).1 v.settled m k,
    Elem-append x (note_activities activity ([], [])).0
        (still_listed v.order (note_activities activity ([], [])).1 v.settled),
  ),
)

-- What an activity reading leaves alone: the settledness of every source's workloads, the workloads
-- held, and whether a reboot was asked for.
pub record SameSettled (d d' : Daemon) : Type 0 where
  pub settled : (name : String) → (verdicts_of name d').settled ≡ (verdicts_of name d).settled
  pub held : d'.held ≡ d.held
  pub asks : d'.asks ≡ d.asks
  pub rebooting : d'.rebooting ≡ d.rebooting

SameSettled-trans : {d d' d'' : Daemon} → SameSettled d d' → SameSettled d' d'' → SameSettled d d''
SameSettled-trans h k = record {
  settled = λ name. k.settled name ∙ h.settled name;
  held = k.held ∙ h.held;
  asks = k.asks ∙ h.asks;
  rebooting = k.rebooting ∙ h.rebooting;
}

Keeps-SameSettled : (d d' : Daemon) → Keeps d d' → SameSettled d d'
Keeps-SameSettled d d' h = record {
  settled = λ name.
      ap {A = Map Verdicts} (λ seen. (verdicts_of name (record d { seen = seen })).settled) h.seen;
  held = h.held;
  asks = h.asks;
  rebooting = h.rebooting;
}

pub dumped-Keeps :
    (answer : Answer (List ConntrackEntry)) (d : Daemon) → Keeps d (dumped answer d).1
dumped-Keeps (answered entries) d = ground arith
dumped-Keeps (errored e) d = ground arith

module _ {W : Type 0} (deps : Deps W) where
  settle-insert :
      (name other : String) (v : Verdicts) (d : Daemon)
      → v.settled ≡ (verdicts_of name d).settled
      → (verdicts_of other (record d { seen = insert name v d.seen })).settled
        ≡ (verdicts_of other d).settled
  settle-insert name other v d h =
      ground (arith, lookup-insert name other v d.seen, eq_iff name other)

  take_activity-SameSettled :
      (name : String) (answer : Answer (List Activity)) (ok : Bool) (d : Daemon)
      → SameSettled d (take_activity deps name answer ok d).1
  take_activity-SameSettled name (errored e) ok d = record {
    settled = λ other. refl;
    held = refl;
    asks = refl;
    rebooting = refl;
  }
  take_activity-SameSettled name (answered activity) ok d = record {
    settled = λ other.
        settle-insert name other (note_activity activity (verdicts_of name d)) d
          (note_activity_lem "" activity (verdicts_of name d)).1;
    held = refl;
    asks = refl;
    rebooting = refl;
  }

  read_sources-SameSettled :
      (table : Table) (sources : List (Source W)) (ok : Bool) (d : Daemon) (w : W)
      → SameSettled d (read_sources deps table sources ok (d, w)).1.0
  unfolding read_sources
  read_sources-SameSettled table [] ok d w = record {
    settled = λ other. refl;
    held = refl;
    asks = refl;
    rebooting = refl;
  }
  read_sources-SameSettled table (s ∷ rest) ok d w =
      let (answer, w') = s.activity table w in
      SameSettled-trans (take_activity-SameSettled s.name answer ok d) (
        read_sources-SameSettled table rest (take_activity deps s.name answer ok d).0
          (take_activity deps s.name answer ok d).1 w')

  pub read_activity-SameSettled : (s : State W) → SameSettled s.0 (read_activity deps s).1.0
  unfolding read_activity dump_conntrack
  read_activity-SameSettled (d, w) =
      let (answer, w') = deps.dump w in
      let (table, d') = dumped answer d in
      SameSettled-trans (Keeps-SameSettled d d' (dumped-Keeps answer d))
        (read_sources-SameSettled table deps.sources true d' w')

  -- A tick, whether the turn was free or a pass held it, changes no workload's settledness, holds nothing
  -- and lets go of nothing, and asks for no reboot.
  pub tick-SameSettled :
      (turn_free : Bool) (s : State W) → SameSettled s.0 (tick deps turn_free s).0
  unfolding tick
  tick-SameSettled true s = SameSettled-trans (read_activity-SameSettled s) (
      Keeps-SameSettled (read_activity deps s).1.0 (publish deps (read_activity deps s).1).0
        (publish-Keeps deps (read_activity deps s).1))
  tick-SameSettled false s = Keeps-SameSettled s.0 (publish deps s).0 (publish-Keeps deps s)

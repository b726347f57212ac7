-- ===== src/Daemon/Outcomes.antt =====
-- What the end of a source's pass records in internal/daemon/daemon.go.
use tidewaiter.Common.{
  String, ◌≡◌, refl, ◌≢◌, Bool, false, Option, Option-cases, Bool-cases, sym, ◌∙◌, inl, inr, none,
  some, List, [], ◌∷◌, Map, lookup, insert, if◌then◌else◌, arith, eq_iff, str_eq, lookup-insert,
}
use tidewaiter.Source.{Outcome}
use tidewaiter.Daemon.State.{Verdicts, no_verdicts, Daemon, verdicts_of}
use tidewaiter.Daemon.Pass.{note_outcome, note_outcomes, record_outcomes}

-- A workload's outcomes, first to last.
pub outcomes_of : String → List Outcome → List Outcome
outcomes_of x [] = []
outcomes_of x (o ∷ os) = if str_eq o.workload x then o ∷ outcomes_of x os else outcomes_of x os

-- The verdict that a list of samples leaves: the last sample's, the one of the pass before where a
-- workload was not sampled, and what there was where there is neither.
pub busy_once : Option Bool → Outcome → Option Bool → Option Bool
busy_once previous o sofar = elim (o.busy) [
  | some b ↦ some b
  | none ↦ elim previous [ some b ↦ some b | none ↦ sofar ]
]

pub busy_after : Option Bool → List Outcome → Option Bool → Option Bool
unfolding busy_once
busy_after previous [] sofar = sofar
busy_after previous (o ∷ os) sofar = busy_after previous os (busy_once previous o sofar)

pub settled_after : List Outcome → Option Bool → Option Bool
settled_after [] sofar = sofar
settled_after (o ∷ os) sofar = settled_after os (some o.settled)

insert_found : (x k : String) (b : Bool) (m : Map Bool) → k ≡ x → lookup x (insert k b m) ≡ some b
insert_found x k b m e = ground (arith, lookup-insert k x b m, eq_iff k x)

insert_other :
    (x k : String) (b : Bool) (m : Map Bool)
    → str_eq k x ≡ false
    → lookup x (insert k b m) ≡ lookup x m
insert_other x k b m e = lookup-insert k x b m ∙ rw e refl

note_outcome-other :
    (x : String) (previous : Map Bool) (o : Outcome) (v : Verdicts)
    → str_eq o.workload x ≡ false
    → lookup x (note_outcome previous o v).busy ≡ lookup x v.busy
note_outcome-other x previous o v e = elim (Option-cases o.busy) [
  | inr (b, h) ↦ rw h (insert_other x o.workload b v.busy e)
  | inl h ↦ rw h (elim (Option-cases (lookup o.workload previous)) [
    | inr (b, k) ↦ rw k (insert_other x o.workload b v.busy e)
    | inl k ↦ rw k refl
  ])
]

note_outcome-same :
    (x : String) (previous : Map Bool) (o : Outcome) (v : Verdicts)
    → o.workload ≡ x
    → lookup x (note_outcome previous o v).busy ≡ busy_once (lookup x previous) o (lookup x v.busy)
unfolding busy_once
note_outcome-same x previous o v e = elim (Option-cases o.busy) [
  | inr (b, h) ↦ rw h (insert_found x o.workload b v.busy e)
  | inl h ↦ rw h (elim (Option-cases (lookup o.workload previous)) [
    | inr (b, k) ↦ rw (k, sym e, k) (insert_found o.workload o.workload b v.busy refl)
    | inl k ↦ rw (k, sym e, k) refl
  ])
]

note_outcomes-busy :
    (x : String) (previous : Map Bool) (os : List Outcome) (v : Verdicts)
    → lookup x (note_outcomes previous os v).busy
      ≡ busy_after (lookup x previous) (outcomes_of x os) (lookup x v.busy)
unfolding busy_after outcomes_of
note_outcomes-busy x previous [] v = refl
note_outcomes-busy x previous (o ∷ os) v =
    note_outcomes-busy x previous os (note_outcome previous o v)
    ∙ elim (Bool-cases (str_eq o.workload x)) [
      | inl e ↦ rw (e, note_outcome-same x previous o v ((eq_iff o.workload x).0 e)) refl
      | inr e ↦ rw (e, note_outcome-other x previous o v e) refl
    ]

note_outcomes-settled :
    (x : String) (previous : Map Bool) (os : List Outcome) (v : Verdicts)
    → lookup x (note_outcomes previous os v).settled
      ≡ settled_after (outcomes_of x os) (lookup x v.settled)
unfolding settled_after outcomes_of
note_outcomes-settled x previous [] v = refl
note_outcomes-settled x previous (o ∷ os) v = ground (
  arith,
  note_outcomes-settled x previous os (note_outcome previous o v),
  lookup-insert o.workload x o.settled v.settled,
)

-- After a source's pass that reported these outcomes, a workload's busy verdict is its last sample, the
-- one of the pass before where it was reported without a sample, and gone where it was not reported;
-- it is settled as its last outcome says, and every other source's verdicts are as they were.
pub record_outcomes_lem :
    (name other x : String) (os : List Outcome) (d : Daemon)
    → let v = verdicts_of name (record_outcomes name os d) in
      (lookup x v.busy ≡ busy_after (lookup x (verdicts_of name d).busy) (outcomes_of x os) none)
      × (lookup x v.settled ≡ settled_after (outcomes_of x os) none)
      × (name ≢ other → lookup other (record_outcomes name os d).seen ≡ lookup other d.seen)
unfolding record_outcomes
record_outcomes_lem name other x os d = (
  rw (found) (note_outcomes-busy x previous os no_verdicts),
  rw (found) (note_outcomes-settled x previous os no_verdicts),
  λ n. lookup-insert name other v d.seen ∙ ground (arith, eq_iff name other),
)
  where
    previous : Map Bool
    previous = (verdicts_of name d).busy

    v : Verdicts
    v = note_outcomes previous os no_verdicts

    found : verdicts_of name (record_outcomes name os d) ≡ v
    found = ground (arith, lookup-insert name name v d.seen, eq_iff name name)

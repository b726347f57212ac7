-- ===== src/Systemd/Reports.antt =====
-- What a pass of internal/systemd/source.go reports: an outcome for every unit.
use tidewaiter.Common.{
  ℕ, String, ◌≡◌, refl, ap, ◌∙◌, subst, inl, inr, ◌⊎◌, Bool, true, false, Option, none, some, List,
  [], ◌∷◌, ◌++◌, map, str_eq, ◌==◌, not, ◌&&◌, Bool-cases, Option-cases, insert,
}
use tidewaiter.Decide
use tidewaiter.Source.{
  Answer-cases, Table, Outcome, Answer, answered, errored, Run, finished, holding,
}
use tidewaiter.Systemd.Settings.{Policy}
use tidewaiter.Systemd.Unit.{UnitState, is_up, is_stopped}
use tidewaiter.Systemd.State.{Kept, State, Deps, Call, ◌>>=◌, memory_of, remember, generation_of}
use tidewaiter.Systemd.Files.{load, policies}
use tidewaiter.Systemd.Sample.{sample, read_profile}
use tidewaiter.Systemd.Sight.{first_sight, look, resume_swap, adopt, can_put_back, is_interrupted}
use tidewaiter.Systemd.Running.{
  was_seen, seen_before, running, act, update, swapped, decision, must_settle, streak_after,
  still_failing, still_pinned,
}
use tidewaiter.Systemd.Pass.{
  once, reconcile_all, reconcile, on_state, remembered, look_again, after_sight, outcome_or_error,
}
use tidewaiter.Systemd.Unread.{CannotLoad, CannotRead, read-errored}
use tidewaiter.Systemd.Distinct.{units_of, Distinct, policies-Distinct}

abbrev pub names_of : List Outcome → List String
names_of outcomes = map (λ o. o.workload) outcomes

-- A pass that, wherever the daemon takes it up again, ends with outcomes of these workloads, in order.
pub data Reports {W : Type 0} (names : List String) : Run W → Type 0 where
  ends :
      (w : W) (outcomes : List Outcome)
      → names_of outcomes ≡ names
      → Reports names (finished w (answered outcomes))
  holds :
      (w : W) (name : String) (go : W → Run W)
      → ((w' : W) → Reports names (go w'))
      → Reports names (holding w name go)

-- An outcome of that unit, or an error.
abbrev Named : String → Answer Outcome → Type 0
Named unit answer = (o : Outcome) → answer ≡ answered o → o.workload ≡ unit

module _ {W : Type 0} (deps : Deps W) (names : List String) where
  module _ (policy : Policy) where
    abbrev Next : Type 0
    Next = Answer Outcome → State W → Run (State W)

    abbrev Goes : Next → Type 0
    Goes next =
        (answer : Answer Outcome) (s : State W)
        → Named policy.unit answer
        → Reports names (next answer s)

    abbrev SightGoes : (Answer (Option Decide.Action) → State W → Run (State W)) → Type 0
    SightGoes next =
        (answer : Answer (Option Decide.Action)) (s : State W) → Reports names (next answer s)

    -- An outcome that has the unit's name.
    by_name : (o : Outcome) → o.workload ≡ policy.unit → Named policy.unit (answered o)
    by_name o h o' e = cc

    no_outcome : (e : String) → Named policy.unit (errored e)
    no_outcome e o h = cc

    swapped-Named :
        (action : Decide.Action) (answer : Answer (Option Decide.Action))
        → Named policy.unit (swapped deps policy action answer)
    swapped-Named action (errored e) = no_outcome e
    swapped-Named action (answered none) = by_name _ refl
    swapped-Named action (answered (some other)) = by_name _ refl

    first_sight-Reports :
        (state : UnitState) (current : String) (n : ℕ)
        (next : Answer (Option Decide.Action) → State W → Run (State W)) (s : State W)
        → SightGoes next
        → Reports names (first_sight deps policy state current n next s)
    unfolding first_sight resume_swap look
    first_sight-Reports state current n next (k, w) goes =
        let good = generation_of (memory_of policy.unit k).good in
        elim (Option-cases (memory_of policy.unit k).swapping) [
          | inr (r, h) ↦
              rw (h, first_sight)
                (elim (Bool-cases deps.dry_run) [
                  | inl d ↦ rw d (goes _ _)
                  | inr d ↦ rw d (elim (Bool-cases (can_put_back r state)) [
                    | inl c ↦ rw c (goes _ _)
                    | inr c ↦ rw c (holds _ _ _ (λ s'. goes _ _))
                  ])
                ])
          | inl h ↦
              rw (h, first_sight)
                (elim (Bool-cases (n == 0)) [
                  | inl z ↦ rw z (goes _ _)
                  | inr z ↦ rw z (elim (Bool-cases (is_up state)) [
                    | inl u ↦ rw u (goes (answered none) (adopt deps policy n (k, w)))
                    | inr u ↦
                        rw u (elim (Bool-cases (is_interrupted state good n && not deps.dry_run)) [
                          | inl i ↦ rw i (holds _ _ _ (λ s'. goes _ _))
                          | inr i ↦ rw i (goes _ _)
                        ])
                  ])
                ])
        ]

    act-Reports :
        (state : UnitState) (current : String) (n : ℕ) (kind : Decide.Kind)
        (from to reason : String) (in_use settled : Bool) (next : Next) (s : State W)
        → Goes next
        → let action : Decide.Action = record {
          kind = kind;
          from = from;
          to = to;
          reason = reason;
        } in
          Reports names (act deps policy state current n action in_use settled next s)
    unfolding act update
    act-Reports state current n Decide.keep from to reason in_use settled next (k, w) goes =
        goes _ _ (by_name _ refl)
    act-Reports state current n Decide.defer from to reason in_use settled next (k, w) goes =
        goes _ _ (by_name _ refl)
    act-Reports state current n Decide.pinned from to reason in_use settled next (k, w) goes =
        goes _ _ (by_name _ refl)
    act-Reports state current n Decide.update from to reason in_use settled next (k, w) goes =
        elim (Bool-cases deps.dry_run) [
          | inl d ↦ rw d (goes _ _ (by_name _ refl))
          | inr d ↦ rw d (holds _ _ _ (λ s'. goes _ _ (swapped-Named _ _)))
        ]

    seen_before-Reports :
        (table : Table) (state : UnitState) (current : String) (n : ℕ) (next : Next) (s : State W)
        → Goes next
        → Reports names (seen_before deps table policy state current n next s)
    unfolding seen_before running
    seen_before-Reports table state current n next s goes = elim (Bool-cases (is_stopped state)) [
      | inl y ↦ rw y (goes _ _ (by_name _ refl))
      | inr y ↦
          let (activity, (k, w)) = sample deps policy state table false s in
          let streak = streak_after policy.unit activity.in_use (not (is_up state)) k in
          let k' : Kept = record k { streaks = insert policy.unit streak k.streaks } in
          let d = decision policy (memory_of policy.unit k') current activity.in_use streak in
          rw y (elim (Bool-cases (must_settle policy state current k')) [
            | inl m ↦ rw m (goes _ _ (by_name _ refl))
            | inr m ↦ rw m (
                act-Reports state current n d.kind d.from d.to d.reason activity.in_use _ next
                  (k', w) goes)
          ])
    ]

    look_again-Reports :
        (table : Table) (next : Next) (s : State W)
        → Goes next
        → Reports names (look_again deps table policy next s)
    unfolding look_again
    look_again-Reports table next (k, w) goes =
        let (answer, w') = deps.unit policy.unit w in
        elim (Answer-cases answer) [
          | inr (e, h) ↦ rw (h, look_again) (goes (errored e) (k, w') (no_outcome e))
          | inl (state, h) ↦
              let (found, s) = read_profile deps policy (k, w') in
              rw (h, look_again)
                (elim (Option-cases found) [
                  | inl e ↦ rw (e, look_again) (goes _ s (by_name _ refl))
                  | inr (at, e) ↦
                      rw (e, look_again) (seen_before-Reports table state at.0 at.1 next s goes)
                ])
        ]

    after_sight-Reports :
        (table : Table) (next : Next) → Goes next → SightGoes (after_sight deps table policy next)
    after_sight-Reports table next goes (errored e) s = goes (errored e) s (no_outcome e)
    after_sight-Reports table next goes (answered (some action)) s = goes _ s (by_name _ refl)
    after_sight-Reports table next goes (answered none) s = look_again-Reports table next s goes

    remembered-Reports :
        (table : Table) (state : UnitState) (current : String) (n : ℕ) (next : Next) (s : State W)
        → Goes next
        → Reports names (remembered deps table policy state current n next s)
    unfolding remembered
    remembered-Reports table state current n next (k, w) goes =
        let m =
          still_failing policy.desired (still_pinned policy.desired (memory_of policy.unit k)) in
        let k1 = remember policy.unit m k in
        let k2 : Kept = record k1 { seen = insert policy.unit true k1.seen } in
        elim (Bool-cases (was_seen policy.unit k1)) [
          | inl y ↦ rw y (seen_before-Reports table state current n next (k1, w) goes)
          | inr y ↦ rw y (
              first_sight-Reports state current n (after_sight deps table policy next) (k2, w)
                (after_sight-Reports table next goes))
        ]

    reconcile-Reports :
        (table : Table) (next : Next) (s : State W)
        → Goes next
        → Reports names (reconcile deps table policy next s)
    unfolding reconcile on_state
    reconcile-Reports table next (k, w) goes =
        let (answer, w') = deps.unit policy.unit w in
        elim (Answer-cases answer) [
          | inr (e, h) ↦ rw (h, reconcile) (goes _ _ (by_name _ refl))
          | inl (state, h) ↦
              rw (h, reconcile)
                (elim (Bool-cases (str_eq state.load_state "not-found")) [
                  | inl y ↦ rw y (goes _ _ (by_name _ refl))
                  | inr y ↦
                      let (found, s) = read_profile deps policy (k, w') in
                      rw y (elim (Option-cases found) [
                        | inl e ↦ rw (e, on_state) (goes _ s (by_name _ refl))
                        | inr (at, e) ↦
                            rw (e, on_state) (remembered-Reports table state at.0 at.1 next s goes)
                      ])
                ])
        ]

names-snoc :
    (outcomes : List Outcome) (o : Outcome) (units : List String)
    → names_of (outcomes ++ o ∷ []) ++ units ≡ names_of outcomes ++ o.workload ∷ units
names-snoc [] o units = refl
names-snoc (x ∷ xs) o units = ap (λ l. x.workload ∷ l) (names-snoc xs o units)

names-nil : (names : List String) → names ≡ names ++ []
names-nil [] = refl
names-nil (x ∷ xs) = ap (λ l. x ∷ l) (names-nil xs)

module _ {W : Type 0} (deps : Deps W) where
  outcome-Named :
      (policy : Policy) (answer : Answer Outcome) (k : Kept)
      → Named policy.unit answer
      → (outcome_or_error deps policy answer k).0.workload ≡ policy.unit
  outcome-Named policy (answered o) k named = named o refl
  outcome-Named policy (errored e) k named = refl

  reconcile_all-Reports :
      (table : Table) (found : List Policy) (outcomes : List Outcome) (s : State W)
      → Reports (names_of outcomes ++ units_of found) (reconcile_all deps table found outcomes s)
  unfolding reconcile_all
  reconcile_all-Reports table [] outcomes s = ends _ outcomes (names-nil (names_of outcomes))
  reconcile_all-Reports table (policy ∷ rest) outcomes s =
      let names = names_of outcomes ++ policy.unit ∷ units_of rest in
      let next : Answer Outcome → State W → Run (State W) = λ answer (k, w).
        let (o, k') = outcome_or_error deps policy answer k in
        reconcile_all deps table rest (outcomes ++ o ∷ []) (k', w) in
      reconcile-Reports deps names policy table next s (λ answer (k, w) named.
        let (o, k') = outcome_or_error deps policy answer k in
        let same =
          names-snoc outcomes o (units_of rest)
          ∙ ap (λ u. names_of outcomes ++ u ∷ units_of rest)
              (outcome-Named policy answer k named) in
        subst (λ l. Reports l (reconcile_all deps table rest (outcomes ++ o ∷ []) (k', w))) same
          (reconcile_all-Reports table rest (outcomes ++ o ∷ []) (k', w)))

  -- Either the state or the units cannot be read, and the pass ends at once with that error; or it ends,
  -- wherever the daemon holds it and however it is taken up, with one outcome for every unit that is
  -- declared, in order and none twice, whichever of them errored. Those units are the ones that the pass
  -- itself reads.
  pub once-Reports :
      (table : Table) (s : State W)
      → ((e : String) × (CannotLoad deps s e ⊎ CannotRead deps s e)
          × (once deps table s ≡ finished ((load deps >>= λ _. policies deps) s).1 (errored e)))
        ⊎ ((found : List Policy) × (((load deps >>= λ _. policies deps) s).0 ≡ answered found)
            × Distinct (units_of found)
            × Reports (units_of found) (once deps table s))
  unfolding once
  once-Reports table s =
      let read : Call W (List Policy) = load deps >>= λ _. policies deps in
      let (answer, s') = read s in
      elim (Answer-cases answer) [
        | inr (e, h) ↦ inl (e, read-errored deps s e h, rw (h, once) refl)
        | inl (found, h) ↦ inr (
          found,
          h,
          policies-Distinct deps s found h,
          rw (h, once) (reconcile_all-Reports table found [] s'),
        )
      ]

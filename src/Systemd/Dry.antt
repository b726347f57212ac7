-- ===== src/Systemd/Dry.antt =====
-- A dry run of internal/systemd/source.go only looks.
use tidewaiter.Common.{
  ℕ, String, ◌≡◌, refl, subst, sym, inl, inr, Bool, true, false, not, Option, none, some, List, [],
  ◌∷◌, ◌++◌, arith, str_eq, ◌==◌, Bool-cases, Option-cases, insert,
}
use tidewaiter.Decide
use tidewaiter.Source.{Answer-cases, Table, Outcome, Answer, answered, errored, Run, finished}
use tidewaiter.Systemd.Settings.{Policy}
use tidewaiter.Systemd.Unit.{UnitState, is_up, is_stopped}
use tidewaiter.Systemd.State.{Kept, State, Deps, Call, ◌>>=◌, memory_of, remember, generation_of}
use tidewaiter.Systemd.Files.{load, policies}
use tidewaiter.Systemd.Sample.{sample, read_profile}
use tidewaiter.Systemd.Swap.{save}
use tidewaiter.Systemd.Update.{update_stopped}
use tidewaiter.Systemd.Sight.{first_sight, look, resume_swap, adopt, is_interrupted}
use tidewaiter.Systemd.Running.{
  was_seen, seen_before, running, act, decision, must_settle, streak_after, still_failing,
  still_pinned,
}
use tidewaiter.Systemd.Pass.{
  once, reconcile_all, reconcile, on_state, remembered, look_again, after_sight, outcome_or_error,
}
use tidewaiter.Systemd.Starts.{sample-world}

-- What every look at the world keeps: reading the units, the state, a unit and a profile.
pub record IsLooking {W : Type 0} (deps : Deps W) (P : W → Type 0) : Type 0 where
  pub units : (w : W) → P w → P (deps.read_units w).1
  pub loads : (w : W) → P w → P (deps.load w).1
  pub unit : (name : String) (w : W) → P w → P (deps.unit name w).1
  pub current : (profile : String) (w : W) → P w → P (deps.current profile w).1
  pub generation : (profile : String) (w : W) → P w → P (deps.generation profile w).1

module _ {W : Type 0} (deps : Deps W) (P : W → Type 0) (looking : IsLooking deps P)
    (dry : deps.dry_run ≡ true) where
  -- A pass that ends, holding nothing, in a world that has the property.
  abbrev pub Ends : Run (State W) → Type 0
  Ends run = (s : State W) × (answer : Answer (List Outcome)) × (run ≡ finished s answer) × P s.1

  -- What comes next ends so.
  abbrev pub Goes : {A : Type 0} → (A → State W → Run (State W)) → Type 0
  Goes {A = A} next = (a : A) (s : State W) → P s.1 → Ends (next a s)

  save-dry : (s : State W) → (save deps s).1 ≡ s
  unfolding save
  save-dry (k, w) = ground arith

  read_profile-Looks : (policy : Policy) (s : State W) → P s.1 → P (read_profile deps policy s).1.1
  unfolding read_profile
  read_profile-Looks policy (k, w) p =
      let w1 = (deps.current policy.profile w).1 in
      let p1 = looking.current policy.profile w p in
      ground (arith, p1, looking.generation policy.profile w1 p1)

  update_stopped-dry :
      (policy : Policy) (current : String) (s : State W)
      → (update_stopped deps policy current s).1.1 ≡ s.1
  unfolding update_stopped
  update_stopped-dry policy current (k, w) = ground arith

  adopt-dry : (policy : Policy) (n : ℕ) (s : State W) → (adopt deps policy n s).1 ≡ s.1
  unfolding adopt save
  adopt-dry policy n (k, w) = ground arith

  module _ (policy : Policy) where
    abbrev pub Next : Type 0
    Next = Answer Outcome → State W → Run (State W)

    first_sight-Ends :
        (state : UnitState) (current : String) (n : ℕ)
        (next : Answer (Option Decide.Action) → State W → Run (State W)) (s : State W)
        → Goes next
        → P s.1
        → Ends (first_sight deps policy state current n next s)
    unfolding first_sight resume_swap look
    first_sight-Ends state current n next (k, w) goes p =
        let good = generation_of (memory_of policy.unit k).good in
        elim (Option-cases (memory_of policy.unit k).swapping) [
          | inr (r, h) ↦ rw (h, first_sight, dry) (goes _ _ p)
          | inl h ↦
              rw (h, first_sight)
                (elim (Bool-cases (n == 0)) [
                  | inl z ↦ rw z (goes _ _ p)
                  | inr z ↦ rw z (elim (Bool-cases (is_up state)) [
                    | inl u ↦ rw u (
                        goes (answered none) (adopt deps policy n (k, w))
                          (subst P (sym (adopt-dry policy n (k, w))) p))
                    | inr u ↦
                        rw (u, dry)
                          (elim (Bool-cases (is_interrupted state good n)) [
                            | inl i ↦ rw i (goes _ _ p)
                            | inr i ↦ rw i (goes _ _ p)
                          ])
                  ])
                ])
        ]

    act-Ends :
        (state : UnitState) (current : String) (n : ℕ) (kind : Decide.Kind)
        (from to reason : String) (in_use settled : Bool) (next : Next) (s : State W)
        → Goes next
        → P s.1
        → let action : Decide.Action = record {
          kind = kind;
          from = from;
          to = to;
          reason = reason;
        } in
          Ends (act deps policy state current n action in_use settled next s)
    unfolding act
    act-Ends state current n Decide.keep from to reason in_use settled next (k, w) goes p =
        goes _ _ p
    act-Ends state current n Decide.defer from to reason in_use settled next (k, w) goes p =
        goes _ _ p
    act-Ends state current n Decide.pinned from to reason in_use settled next (k, w) goes p =
        goes _ _ p
    act-Ends state current n Decide.update from to reason in_use settled next (k, w) goes p =
        rw dry (goes _ _ p)

    running-Ends :
        (table : Table) (state : UnitState) (current : String) (n : ℕ) (next : Next) (s : State W)
        → Goes next
        → P s.1
        → Ends (running deps table policy state current n next s)
    unfolding running
    running-Ends table state current n next s goes p =
        let (activity, (k, w)) = sample deps policy state table false s in
        let looked = subst P (sym (sample-world deps policy state table false s)) p in
        let streak = streak_after policy.unit activity.in_use (not (is_up state)) k in
        let k' : Kept = record k { streaks = insert policy.unit streak k.streaks } in
        let d = decision policy (memory_of policy.unit k') current activity.in_use streak in
        elim (Bool-cases (must_settle policy state current k')) [
          | inl y ↦ rw y (goes _ _ looked)
          | inr y ↦ rw y (
              act-Ends state current n d.kind d.from d.to d.reason activity.in_use _ next (k', w)
                goes looked)
        ]

    seen_before-Ends :
        (table : Table) (state : UnitState) (current : String) (n : ℕ) (next : Next) (s : State W)
        → Goes next
        → P s.1
        → Ends (seen_before deps table policy state current n next s)
    unfolding seen_before
    seen_before-Ends table state current n next s goes p = elim (Bool-cases (is_stopped state)) [
      | inl y ↦
          let after = update_stopped deps policy current s in
          rw y (goes _ after.1 (subst P (sym (update_stopped-dry policy current s)) p))
      | inr y ↦ rw y (running-Ends table state current n next s goes p)
    ]

    look_again-Ends :
        (table : Table) (next : Next) (s : State W)
        → Goes next
        → P s.1
        → Ends (look_again deps table policy next s)
    unfolding look_again
    look_again-Ends table next (k, w) goes p =
        let (answer, w') = deps.unit policy.unit w in
        let p' = looking.unit policy.unit w p in
        elim (Answer-cases answer) [
          | inr (e, h) ↦ rw (h, look_again) (goes (errored e) (k, w') p')
          | inl (state, h) ↦
              let (found, s) = read_profile deps policy (k, w') in
              let p'' = read_profile-Looks policy (k, w') p' in
              rw (h, look_again)
                (elim (Option-cases found) [
                  | inl e ↦ rw (e, look_again) (goes _ s p'')
                  | inr (at, e) ↦
                      rw (e, look_again) (seen_before-Ends table state at.0 at.1 next s goes p'')
                ])
        ]

    after_sight-Ends :
        (table : Table) (next : Next) → Goes next → Goes (after_sight deps table policy next)
    after_sight-Ends table next goes (errored e) s p = goes (errored e) s p
    after_sight-Ends table next goes (answered (some action)) s p = goes _ s p
    after_sight-Ends table next goes (answered none) s p = look_again-Ends table next s goes p

    remembered-Ends :
        (table : Table) (state : UnitState) (current : String) (n : ℕ) (next : Next) (s : State W)
        → Goes next
        → P s.1
        → Ends (remembered deps table policy state current n next s)
    unfolding remembered
    remembered-Ends table state current n next (k, w) goes p =
        let m =
          still_failing policy.desired (still_pinned policy.desired (memory_of policy.unit k)) in
        let k1 = remember policy.unit m k in
        let k2 : Kept = record k1 { seen = insert policy.unit true k1.seen } in
        elim (Bool-cases (was_seen policy.unit k1)) [
          | inl y ↦ rw y (seen_before-Ends table state current n next (k1, w) goes p)
          | inr y ↦ rw y (
              first_sight-Ends state current n (after_sight deps table policy next) (k2, w)
                (after_sight-Ends table next goes) p)
        ]

    reconcile-Ends :
        (table : Table) (next : Next) (s : State W)
        → Goes next
        → P s.1
        → Ends (reconcile deps table policy next s)
    unfolding reconcile on_state
    reconcile-Ends table next (k, w) goes p =
        let (answer, w') = deps.unit policy.unit w in
        let p' = looking.unit policy.unit w p in
        elim (Answer-cases answer) [
          | inr (e, h) ↦ rw (h, reconcile) (goes _ _ p')
          | inl (state, h) ↦
              rw (h, reconcile)
                (elim (Bool-cases (str_eq state.load_state "not-found")) [
                  | inl y ↦ rw y (goes _ _ p')
                  | inr y ↦
                      let (found, s) = read_profile deps policy (k, w') in
                      let p'' = read_profile-Looks policy (k, w') p' in
                      rw y (elim (Option-cases found) [
                        | inl e ↦ rw (e, on_state) (goes _ s p'')
                        | inr (at, e) ↦
                            rw (e, on_state) (remembered-Ends table state at.0 at.1 next s goes p'')
                      ])
                ])
        ]

  reconcile_all-Ends :
      (table : Table) (found : List Policy) (outcomes : List Outcome) (s : State W)
      → P s.1
      → Ends (reconcile_all deps table found outcomes s)
  unfolding reconcile_all
  reconcile_all-Ends table [] outcomes s p = (s, answered outcomes, rw (save-dry s) refl, p)
  reconcile_all-Ends table (policy ∷ rest) outcomes s p =
      let next : Answer Outcome → State W → Run (State W) = λ answer (k, w).
        let (o, k') = outcome_or_error deps policy answer k in
        reconcile_all deps table rest (outcomes ++ o ∷ []) (k', w) in
      reconcile-Ends policy table next s
        (λ answer (k, w) p'.
          let (o, k') = outcome_or_error deps policy answer k in
          reconcile_all-Ends table rest (outcomes ++ o ∷ []) (k', w) p')
        p

  read_all : Call W (List Policy)
  read_all = load deps >>= λ _. policies deps

  read_all-Looks : (s : State W) → P s.1 → P (read_all s).1.1
  unfolding read_all load policies
  read_all-Looks (k, w) p =
      let w1 = (deps.load w).1 in
      let p1 = looking.loads w p in ground (arith, p1, looking.units w p, looking.units w1 p1)

  -- A dry run's pass ends without holding a workload, and whatever a look at the world keeps - reading the
  -- units, the state, a unit or a profile - is kept by the pass.
  pub once-Ends : (table : Table) (s : State W) → P s.1 → Ends (once deps table s)
  unfolding once read_all
  once-Ends table s p =
      let (answer, s') = read_all s in
      let p' = read_all-Looks s p in
      elim (Answer-cases answer) [
        | inr (e, h) ↦ rw (h, once) (s', errored e, refl, p')
        | inl (found, h) ↦ rw (h, once) (reconcile_all-Ends table found [] s' p')
      ]

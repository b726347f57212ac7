-- ===== src/Systemd/Restore.antt =====
-- What undoing a swap of internal/systemd/source.go that failed before its gate restores, however far it
-- got: the generation of the profile, and what the unit's closure is bound to.
use tidewaiter.Common.{
  ℕ, String, ◌≡◌, ◌≢◌, refl, ap, sym, ◌∙◌, inl, inr, Bool, true, false, none, some, ◌==◌, ==_iff,
  not, ◌&&◌, str_eq, eq_iff, arith, Bool-cases, Option-cases,
}
use tidewaiter.Source.{Answer-cases, answered}
use tidewaiter.Systemd.Settings.{Policy}
use tidewaiter.Systemd.Unit.{UnitState}
use tidewaiter.Systemd.State.{Kept, State, Deps, Call, ◌>>=◌, ◌>>◌}
use tidewaiter.Systemd.Swap.{switch_back, when, rebind, restart_if_moved, undo_steps}
use tidewaiter.Systemd.Update.{change, set_and_restart}

-- What Nix and systemd document of the calls on a unit and its profile, of a world that shows the
-- profile's generation and what the unit's closure is bound to: a call that gave an error changed neither.
pub record IsHost {W : Type 0} (deps : Deps W) (policy : Policy) (gen : W → ℕ)
    (closure : W → String) : Type 0 where
  pub reads : (n : ℕ) (w : W) → (deps.generation policy.profile w).0 ≡ answered n → n ≡ gen w
  pub generation_keeps :
      (w : W)
      → let w' = (deps.generation policy.profile w).1 in (gen w' ≡ gen w) × (closure w' ≡ closure w)
  pub deletes :
      (n : ℕ) (w : W)
      → n ≢ gen w
      → let w' = (deps.delete_generation policy.profile n w).1 in
        (gen w' ≡ gen w) × (closure w' ≡ closure w)
  pub reloads :
      (w : W) → let w' = (deps.daemon_reload w).1 in (gen w' ≡ gen w) × (closure w' ≡ closure w)
  pub restarts :
      (w : W)
      → let w' = (deps.restart policy.unit w).1 in (gen w' ≡ gen w) × (closure w' ≡ closure w)
  pub looks :
      (w : W) → let w' = (deps.unit policy.unit w).1 in (gen w' ≡ gen w) × (closure w' ≡ closure w)
  pub switches :
      (n : ℕ) (w : W)
      → let (e, w') = deps.switch_generation policy.profile n w in
        (e ≡ none → gen w' ≡ n)
        × ((why : String) → e ≡ some why → gen w' ≡ gen w)
        × (closure w' ≡ closure w)
  pub sets :
      (target : String) (w : W)
      → let (e, w') = deps.set_profile policy.profile target w in
        ((why : String) → e ≡ some why → gen w' ≡ gen w) × (closure w' ≡ closure w)
  pub binds :
      (target : String) (w : W)
      → let (e, w') = deps.bind policy.unit policy.profile target w in
        (e ≡ none → closure w' ≡ target)
        × ((why : String) → e ≡ some why → closure w' ≡ closure w)
        × (gen w' ≡ gen w)

-- A chain that ends with no error has gone through both its calls.
then-cases :
    {W : Type 0} (m n : Call W (Unit {0})) (s : State W)
    → ((m >> n) s).0 ≡ answered tt
    → ((m s).0 ≡ answered tt) × ((m >> n) s ≡ n (m s).1)
then-cases m n s h = elim (Answer-cases (m s).0) [
  | inl (_, x) ↦ (x, rw (x, ◌>>◌, ◌>>=◌) refl)
  | inr (e, x) ↦ absurd (ground arith)
]

module _ {W : Type 0} (deps : Deps W) (policy : Policy) (gen : W → ℕ) (closure : W → String)
    (host : IsHost deps policy gen closure) where
  set_and_restart-Left :
      (bound : Bool) (w : W)
      → let (got, w') = set_and_restart deps policy bound w in
        (got.bound ≡ bound) × (got.set ≡ false → gen w' ≡ gen w) × (closure w' ≡ closure w)
  set_and_restart-Left bound w =
      let (e, w') = deps.set_profile policy.profile policy.desired w in
      let now = host.sets policy.desired w in
      elim (Option-cases e) [
        | inl n ↦ rw (n, set_and_restart) (refl, (λ x. absurd cc), (host.restarts w').1 ∙ now.1)
        | inr (why, h) ↦ rw (h, set_and_restart) (refl, (λ _. now.0 why h), now.1)
      ]

  -- However far a change got, the profile is moved only where that says so, and so is the closure.
  change-Left :
      (w : W)
      → let (got, w') = change deps policy w in
        (got.set ≡ false → gen w' ≡ gen w) × (got.bound ≡ false → closure w' ≡ closure w)
  unfolding change
  change-Left w = elim (Bool-cases policy.bind_closure) [
    | inr n ↦ let left = set_and_restart-Left false w in rw n (left.1, (λ _. left.2))
    | inl y ↦
        let (e, w1) = deps.bind policy.unit policy.profile policy.desired w in
        let bound = host.binds policy.desired w in
        rw y (elim (Option-cases e) [
          | inr (why, h) ↦ rw (h, change) ((λ _. bound.2), (λ _. bound.1 why h))
          | inl none_1 ↦
              let (e', w2) = deps.daemon_reload w1 in
              let reloaded = host.reloads w1 in
              rw (none_1, change)
                (elim (Option-cases e') [
                  | inr (why, h) ↦ rw (h, change) ((λ _. reloaded.0 ∙ bound.2), (λ x. absurd cc))
                  | inl none_2 ↦
                      let left = set_and_restart-Left true w2 in
                      rw (none_2, change) ((λ x. left.1 x ∙ reloaded.0 ∙ bound.2), (λ x. absurd cc))
                ])
        ])
  ]

  rebind-Bound :
      (target : String) (s : State W)
      → (rebind deps policy target s).0 ≡ answered tt
      → let w' = (rebind deps policy target s).1.1 in (closure w' ≡ target) × (gen w' ≡ gen s.1)
  rebind-Bound target (k, w) h =
      let w1 = (deps.bind policy.unit policy.profile target w).1 in
      let bound = host.binds target w in ground (arith, bound.0, bound.2, host.reloads w1)

  restart_if_moved-Keeps :
      (before : UnitState) (s : State W)
      → let w' = (restart_if_moved deps policy before s).1.1 in
        (gen w' ≡ gen s.1) × (closure w' ≡ closure s.1)
  restart_if_moved-Keeps before (k, w) =
      let w1 = (deps.unit policy.unit w).1 in ground (arith, host.looks w, host.restarts w1)

  switch_back-Switched :
      (n : ℕ) (s : State W)
      → (switch_back deps policy.profile n s).0 ≡ answered tt
      → let w' = (switch_back deps policy.profile n s).1.1 in
        (gen w' ≡ n) × (closure w' ≡ closure s.1)
  unfolding switch_back
  switch_back-Switched n (k, w) h =
      let w1 = (deps.generation policy.profile w).1 in
      let w2 = (deps.switch_generation policy.profile n w1).1 in
      let switched = host.switches n w1 in
      elim (Answer-cases (deps.generation policy.profile w).0) [
        | inr (e, x) ↦ absurd (ground arith)
        | inl (failed, x) ↦ ground (
          arith,
          ==_iff failed n,
          host.reads failed w x,
          host.generation_keeps w,
          switched.0,
          switched.2,
          host.deletes failed w2,
        )
      ]

  -- The three stages of `undo`.
  profile_back : ℕ → Bool → Call W (Unit {0})
  profile_back previous set =
      when deps (set && not (previous == 0)) (switch_back deps policy.profile previous)

  closure_back : String → Bool → Call W (Unit {0})
  closure_back current bound =
      when deps (bound && not (str_eq current "")) (rebind deps policy current)

  profile_back-Switched :
      (previous : ℕ) (set : Bool) (s : State W)
      → previous ≢ 0
      → (set ≡ false → gen s.1 ≡ previous)
      → (profile_back previous set s).0 ≡ answered tt
      → let w' = (profile_back previous set s).1.1 in
        (gen w' ≡ previous) × (closure w' ≡ closure s.1)
  unfolding profile_back
  profile_back-Switched previous false s p unset h = (unset refl, refl)
  profile_back-Switched previous true s p unset h = elim (Bool-cases (previous == 0)) [
    | inl z ↦ absurd (ground (arith, ==_iff previous 0))
    | inr z ↦ let h' = rw z at h in rw z (switch_back-Switched previous s h')
  ]

  closure_back-Bound :
      (current : String) (bound : Bool) (s : State W)
      → current ≢ ""
      → (bound ≡ false → closure s.1 ≡ current)
      → (closure_back current bound s).0 ≡ answered tt
      → let w' = (closure_back current bound s).1.1 in (closure w' ≡ current) × (gen w' ≡ gen s.1)
  unfolding closure_back
  closure_back-Bound current false s c unbound h = (unbound refl, refl)
  closure_back-Bound current true s c unbound h = elim (Bool-cases (str_eq current "")) [
    | inl z ↦ absurd (ground (arith, eq_iff current ""))
    | inr z ↦ let h' = rw z at h in rw z (rebind-Bound current s h')
  ]

  restarted : UnitState → Bool → Call W (Unit {0})
  restarted before set = when deps set (restart_if_moved deps policy before)

  restarted-Keeps :
      (before : UnitState) (set : Bool) (s : State W)
      → let w' = (restarted before set s).1.1 in (gen w' ≡ gen s.1) × (closure w' ≡ closure s.1)
  unfolding restarted
  restarted-Keeps before true s = restart_if_moved-Keeps before s
  restarted-Keeps before false s = (refl, refl)

  stages-Undone :
      (before : UnitState) (current : String) (previous : ℕ) (bound set : Bool) (s : State W)
      → previous ≢ 0
      → current ≢ ""
      → (set ≡ false → gen s.1 ≡ previous)
      → (bound ≡ false → closure s.1 ≡ current)
      → let call =
          (profile_back previous set >> closure_back current bound) >> restarted before set in
        (call s).0 ≡ answered tt → (gen (call s).1.1 ≡ previous) × (closure (call s).1.1 ≡ current)
  stages-Undone before current previous bound set s p c unset unbound h =
      let first = profile_back previous set in
      let second = closure_back current bound in
      let third = restarted before set in
      let (done, same) = then-cases (first >> second) third s h in
      let (done1, same1) = then-cases first second s done in
      let s1 = (first s).1 in
      let back = profile_back-Switched previous set s p unset done1 in
      let again =
        closure_back-Bound current bound s1 c (λ x. back.1 ∙ unbound x)
          (sym (ap (λ r. r.0) same1) ∙ done) in
      let kept = restarted-Keeps before set (second s1).1 in
      rw (same, same1) (kept.0 ∙ again.1 ∙ back.0, kept.1 ∙ again.0)

  undo_steps-Undone :
      (before : UnitState) (current : String) (previous : ℕ) (bound set : Bool) (s : State W)
      → previous ≢ 0
      → current ≢ ""
      → (set ≡ false → gen s.1 ≡ previous)
      → (bound ≡ false → closure s.1 ≡ current)
      → (undo_steps deps policy before current previous bound set s).0 ≡ answered tt
      → let w' = (undo_steps deps policy before current previous bound set s).1.1 in
        (gen w' ≡ previous) × (closure w' ≡ current)
  unfolding undo_steps profile_back closure_back restarted
  undo_steps-Undone before current previous bound set s p c unset unbound h =
      stages-Undone before current previous bound set s p c unset unbound h

  -- A change that is undone with no error, whether it went through or however far it got, leaves the
  -- profile on the generation, and the unit's closure bound to the target, that it found. It is asked that
  -- these were given.
  pub change-Undone :
      (before : UnitState) (current : String) (previous : ℕ) (k : Kept) (w : W)
      → previous ≢ 0
      → current ≢ ""
      → gen w ≡ previous
      → closure w ≡ current
      → let (got, w1) = change deps policy w in
        let undone = undo_steps deps policy before current previous got.bound got.set (k, w1) in
        undone.0 ≡ answered tt → (gen undone.1.1 ≡ previous) × (closure undone.1.1 ≡ current)
  change-Undone before current previous k w p c g b h =
      let (got, w1) = change deps policy w in
      let left = change-Left w in
      undo_steps-Undone before current previous got.bound got.set (k, w1) p c (λ x. left.0 x ∙ g)
        (λ x. left.1 x ∙ b) h

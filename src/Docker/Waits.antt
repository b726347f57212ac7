-- ===== src/Docker/Waits.antt =====
-- When the source of internal/docker/source.go leaves a container alone.
use tidewaiter.Common.{
  ℕ, suc, ◌<◌, String, ◌≡◌, refl, ap, ◌∙◌, ◌≢◌, ◌⊎◌, Bool, true, false, Option, insert,
  lookup-insert, eq_iff, eq_refl, arith,
}
use tidewaiter.Decide
use tidewaiter.Source.{Table}
use tidewaiter.Model.{RunningContainer}
use tidewaiter.Docker.Recreate.{ImageDefaults}
use tidewaiter.Docker.State.{Policy, Memory, Kept, LocalImage, Deps, memory_of}
use tidewaiter.Docker.Update.{apply}
use tidewaiter.Docker.Reconcile.{
  still_pinned, adopt, streak_after, outcome_of, holds_it, prefetch, sample, decision,
}
use tidewaiter.Docker.Pass.{Next, carry_out, decided, digest_of, defaults_of}

streak-reset : (in_use : Bool) (streak : ℕ) → in_use ≡ true → streak_after in_use streak ≡ 0
streak-reset true streak h = refl
streak-reset false streak h = absurd cc

streak-next :
    (in_use : Bool) (streak : ℕ) → in_use ≡ false → streak_after in_use streak ≡ suc streak
streak-next true streak h = absurd cc
streak-next false streak h = refl

-- Neither the clearing of a stale pin nor the adoption of a baseline touches the streak.
still_pinned-streak :
    (desired : String) (m : Memory) → (still_pinned desired m).idle_streak ≡ m.idle_streak
still_pinned-streak desired m = ground arith

adopt-streak :
    (name current desired : String) (m : Memory) (k : Kept)
    → (adopt name current desired (m, k)).0.idle_streak ≡ m.idle_streak
adopt-streak name current desired m k = ground arith

module _ {W : Type 0} (deps : Deps W) where
  -- An action that is no update, or a dry run, touches nothing, and remembers the streak.
  apply-quiet :
      (kind : Decide.Kind) (version_from version_to reason : String) (container : RunningContainer)
      (found : Option ImageDefaults) (policy : Policy) (m : Memory) (streak : ℕ)
      (desired current : String) (k : Kept) (w : W)
      → let action : Decide.Action = record {
        kind = kind;
        from = version_from;
        to = version_to;
        reason = reason;
      } in
        holds_it action deps.dry_run ≡ false
        → let (m', s') = apply deps action container found policy m streak desired current (k, w) in
          (s'.1 ≡ w) × (m'.idle_streak ≡ streak)
  unfolding apply
  apply-quiet Decide.keep a b r container found policy m streak desired current k w h = (refl, refl)
  apply-quiet Decide.defer a b r container found policy m streak desired current k w h =
      (refl, refl)
  apply-quiet Decide.pinned a b r container found policy m streak desired current k w h =
      (refl, refl)
  apply-quiet Decide.update a b r container found policy m streak desired current k w h =
      ground arith

  -- Where no update is due.
  abbrev pub IsWaiting : Policy → Memory → String → String → Bool → ℕ → Type 0
  IsWaiting policy m desired current in_use streak =
      (in_use ≡ true)
      ⊎ (streak < policy.idle_samples)
      ⊎ (desired ≡ current)
      ⊎ ((m.pinned ≢ "") × (m.pinned ≡ desired))
      ⊎ (deps.dry_run ≡ true)

  not_held :
      (policy : Policy) (m : Memory) (desired current : String) (in_use : Bool) (streak : ℕ)
      → IsWaiting policy m desired current in_use streak
      → holds_it (decision deps policy m desired current in_use streak) deps.dry_run ≡ false
  unfolding Decide.decide
  not_held policy m desired current in_use streak h =
      ground (arith, eq_iff m.pinned "", eq_iff m.pinned desired, eq_iff desired current)

  carry_out-quiet :
      (container : RunningContainer) (policy : Policy) (action : Decide.Action)
      (found : Option LocalImage) (m : Memory) (in_use : Bool) (streak : ℕ) (desired : String)
      (next : Next deps) (k : Kept) (w : W)
      → holds_it action deps.dry_run ≡ false
      → (k' : Kept) × (carry_out deps container policy action found m in_use streak desired next
            (k, w)
          ≡ next (outcome_of container.spec.name action in_use streak policy) (k', w))
        × ((memory_of container.spec.name k').idle_streak ≡ streak)
  unfolding carry_out
  carry_out-quiet container policy action found m in_use streak desired next k w h =
      let name = container.spec.name in
      let after =
        apply deps action container (defaults_of found) policy m streak desired (digest_of found)
          (k, w) in
      let k' : Kept = record after.1.0 { memory = insert name after.0 after.1.0.memory } in
      let quiet =
        apply-quiet action.kind action.from action.to action.reason container (defaults_of found)
          policy m streak desired (digest_of found) k w h in
      (
        k',
        ap (λ v. next (outcome_of name action in_use streak policy) (k', v)) quiet.0,
        ground (arith, lookup-insert name name after.0 after.1.0.memory, eq_refl name, quiet.1),
      )

  -- A container whose sample says that it is busy, or that has not been idle for as many samples as
  -- its policy asks, or whose image is the desired one or is pinned out, or that is in a dry run, is
  -- not held, and nothing in the world is touched after the sample: the pass goes on to what comes
  -- next with the outcome of the decision. What it remembers of the streak is zero after a busy sample, and
  -- one more than before after an idle one.
  pub waiting-untouched :
      (table : Table) (container : RunningContainer) (policy : Policy) (desired : String)
      (found : Option LocalImage) (next : Next deps) (k : Kept) (w : W)
      → let name = container.spec.name in
        let current = digest_of found in
        let (m, k1) = adopt name current desired (still_pinned desired (memory_of name k), k) in
        let (result, s) =
          sample deps container policy table true
            (prefetch deps container policy desired current m.pinned k1, w) in
        let streak = streak_after result.in_use m.idle_streak in
        IsWaiting policy m desired current result.in_use streak
        → (k' : Kept) × (decided deps table container policy desired found next (k, w)
            ≡ next
                (outcome_of name
                  (decision deps policy m desired current result.in_use streak)
                  result.in_use
                  streak
                  policy)
                (k', s.1))
          × (result.in_use ≡ true → (memory_of name k').idle_streak ≡ 0)
          × (result.in_use ≡ false
              → (memory_of name k').idle_streak ≡ suc (memory_of name k).idle_streak)
  unfolding decided carry_out
  waiting-untouched table container policy desired found next k w h =
      let name = container.spec.name in
      let current = digest_of found in
      let m1 = adopt name current desired (still_pinned desired (memory_of name k), k) in
      let seen =
        sample deps container policy table true
          (prefetch deps container policy desired current m1.0.pinned m1.1, w) in
      let in_use = seen.0.in_use in
      let streak = streak_after in_use m1.0.idle_streak in
      let action = decision deps policy m1.0 desired current in_use streak in
      let idle = not_held policy m1.0 desired current in_use streak h in
      let (k', goes, remembered) =
        carry_out-quiet container policy action found m1.0 in_use streak desired next seen.1.0
          seen.1.1 idle in
      let before =
        adopt-streak name current desired (still_pinned desired (memory_of name k)) k
        ∙ still_pinned-streak desired (memory_of name k) in
      (
        k',
        rw idle goes,
        (λ b. remembered ∙ streak-reset in_use m1.0.idle_streak b),
        (λ b. remembered ∙ streak-next in_use m1.0.idle_streak b ∙ ap suc before),
      )

-- ===== src/Systemd/Ends.antt =====
-- What each end of a swap of internal/systemd/source.go leaves of the memory of its unit.
use tidewaiter.Common.{
  ℕ, String, ◌≡◌, refl, ap, ◌∙◌, inl, inr, none, if◌then◌else◌, leb, arith, Bool-cases,
}
use tidewaiter.Source.{max_swap_failures}
use tidewaiter.Systemd.Settings.{Policy}
use tidewaiter.Systemd.Unit.{UnitState}
use tidewaiter.Systemd.State.{
  UnitMemory, no_memory, Kept, State, Deps, memory_of, remember, generation_ref,
}
use tidewaiter.Systemd.Swap.{Change, cleared, pinned_out, failures_after, count_failure, save}
use tidewaiter.Systemd.Update.{generation_or_none, failed_early, committed, rejected}
use tidewaiter.Systemd.Memory.{memory_of-remember, save-memories}
use tidewaiter.Systemd.Stays.{undo-Remembers, roll_back-Remembers}

-- The pin after so many failures.
abbrev pin_after : String → UnitMemory → String
pin_after desired m = if leb max_swap_failures (failures_after m desired) then desired else m.pinned

-- A memory after one more failed swap.
abbrev pub counted : String → UnitMemory → UnitMemory
counted desired m = record m {
  pinned = pin_after desired m;
  failing = desired;
  swap_failures = failures_after m desired;
  swapping = none;
}

module _ {W : Type 0} (deps : Deps W) where
  count_failure_lem :
      (unit desired : String) (k : Kept)
      → (memory_of unit k).swapping ≡ none
      → memory_of unit (count_failure unit desired k) ≡ counted desired (memory_of unit k)
  unfolding count_failure
  count_failure_lem unit desired k h =
      elim (Bool-cases (leb max_swap_failures (failures_after (memory_of unit k) desired))) [
        | inl e ↦ rw e (memory_of-remember unit _ _ ∙ ground arith)
        | inr e ↦ rw e (memory_of-remember unit _ k ∙ ground arith)
      ]

  -- A memory is what the memories say.
  pub same-memory :
      (unit : String) (k k' : Kept)
      → k.memories ≡ k'.memories
      → memory_of unit k ≡ memory_of unit k'
  same-memory unit k k' h = rw (h, memory_of) refl

  pub saved-memory :
      (unit : String) (m : UnitMemory) (k : Kept) (w : W)
      → memory_of unit (save deps (remember unit m k, w)).1.0 ≡ m
  saved-memory unit m k w =
      same-memory unit (save deps (remember unit m k, w)).1.0 (remember unit m k)
        (save-memories deps (remember unit m k, w))
      ∙ memory_of-remember unit m k

  -- Only the generation that the profile is on, where that can be read.
  abbrev pub good_memory : Policy → W → UnitMemory
  good_memory policy w = record no_memory {
    good = generation_ref (generation_or_none (deps.generation policy.profile w).0);
  }

  pub committed-memory :
      (policy : Policy) (s : State W)
      → memory_of policy.unit (committed deps policy s).0 ≡ good_memory policy s.1
  unfolding committed
  committed-memory policy (k, w) = saved-memory policy.unit _ _ _

  -- A memory is changed over what a call left, that changed no memory.
  pub changed-memory :
      (unit : String) (changed : UnitMemory → UnitMemory) (k k1 : Kept) (w : W)
      → k1.memories ≡ k.memories
      → memory_of unit (save deps (remember unit (changed (memory_of unit k1)) k1, w)).1.0
        ≡ changed (memory_of unit k)
  changed-memory unit changed k k1 w h =
      saved-memory unit (changed (memory_of unit k1)) k1 w ∙ ap changed (same-memory unit k1 k h)

  pub rejected-memory :
      (policy : Policy) (current why : String) (previous : ℕ) (s : State W)
      → memory_of policy.unit (rejected deps policy current previous why s).0
        ≡ pinned_out policy.desired (memory_of policy.unit s.0)
  unfolding rejected
  rejected-memory policy current why previous (k, w) =
      changed-memory policy.unit (pinned_out policy.desired) k _ _
        (roll_back-Remembers deps k policy previous current _ refl)

  counted-memory :
      (unit desired : String) (k k1 : Kept) (w : W)
      → k1.memories ≡ k.memories
      → memory_of unit
          (save deps
            (count_failure unit desired (remember unit (cleared (memory_of unit k1)) k1), w)).1.0
        ≡ counted desired (memory_of unit k)
  counted-memory unit desired k k1 w h =
      let clear = memory_of-remember unit (cleared (memory_of unit k1)) k1 in
      let k2 = remember unit (cleared (memory_of unit k1)) k1 in
      same-memory unit (save deps (count_failure unit desired k2, w)).1.0
        (count_failure unit desired k2) (save-memories deps (count_failure unit desired k2, w))
      ∙ count_failure_lem unit desired k2 (ap (λ m. m.swapping) clear)
      ∙ ap (counted desired) clear
      ∙ ap (counted desired) (same-memory unit k1 k h)

  pub failed_early-memory :
      (policy : Policy) (before : UnitState) (current e : String) (previous : ℕ) (got : Change)
      (s : State W)
      → memory_of policy.unit (failed_early deps policy before current previous got e s).0
        ≡ counted policy.desired (memory_of policy.unit s.0)
  unfolding failed_early
  failed_early-memory policy before current e previous got (k, w) =
      counted-memory policy.unit policy.desired k _ _
        (undo-Remembers deps k policy before current previous got.bound got.set _ refl)

-- ===== src/Systemd/Saves.antt =====
-- What `save` of internal/systemd/source.go stands for: the memories are in the store.
use tidewaiter.Common.{
  String, ◌≡◌, refl, subst, ◌⊎◌, inl, inr, Bool, true, false, none, some, arith, str_eq, eq_iff,
  Bool-cases, Option-cases,
}
use tidewaiter.Source.{Table}
use tidewaiter.Systemd.Settings.{Policy}
use tidewaiter.Systemd.Unit.{UnitState}
use tidewaiter.Systemd.State.{UnitMemory, Kept, State, Deps, remember}
use tidewaiter.Systemd.Sample.{sample}
use tidewaiter.Systemd.Swap.{save}

module _ {W : Type 0} (deps : Deps W) where
  -- The memories of a state are durable, of the state before they were saved: the run is dry, or they are
  -- what was saved last and the world is untouched, or the store has just taken them with no error.
  abbrev pub IsDurable : State W → State W → Type 0
  IsDurable (k, w) (k', w') =
      (deps.dry_run ≡ true)
      ⊎ (((deps.encode k'.memories ≡ k.saved) × (w' ≡ w))
          ⊎ (((deps.save k'.memories w).0 ≡ none) × (w' ≡ (deps.save k'.memories w).1)))

  pub save-IsDurable : (s : State W) → (save deps s).0 ≡ true → IsDurable s (save deps s).1
  unfolding save
  save-IsDurable (k, w) h = elim (Bool-cases deps.dry_run) [
    | inl d ↦ inl d
    | inr d ↦ inr (elim (Bool-cases (str_eq (deps.encode k.memories) k.saved)) [
      | inl y ↦ rw y (inl ((eq_iff (deps.encode k.memories) k.saved).0 y, refl))
      | inr n ↦ elim (Option-cases (deps.save k.memories w).0) [
        | inl e ↦ rw (n, d, e) (inr (e, refl))
        | inr (why, e) ↦ absurd (ground arith)
      ]
    ])
  ]

  -- A save that is not done was refused by the store.
  pub save-refused :
      (s : State W)
      → (save deps s).0 ≡ false
      → (e : String) × ((deps.save s.0.memories s.1).0 ≡ some e)
  unfolding save
  save-refused (k, w) h = elim (Option-cases (deps.save k.memories w).0) [
    | inl e ↦ absurd (ground arith)
    | inr (why, e) ↦ (why, e)
  ]

  -- A sample saves nothing.
  pub sample-saved :
      (policy : Policy) (state : UnitState) (table : Table) (quiet : Bool) (s : State W)
      → (sample deps policy state table quiet s).1.0.saved ≡ s.0.saved
  unfolding sample
  sample-saved policy state table quiet (k, w) = ground arith

  remember-saved : (unit : String) (m : UnitMemory) (k : Kept) → (remember unit m k).saved ≡ k.saved
  unfolding remember
  remember-saved unit m k = ground arith

  -- A memory that is remembered and saved with success is durable.
  pub remembered-IsDurable :
      (unit : String) (m : UnitMemory) (k : Kept) (w : W)
      → (save deps (remember unit m k, w)).0 ≡ true
      → IsDurable (k, w) (save deps (remember unit m k, w)).1
  remembered-IsDurable unit m k w h =
      let (k', w') = (save deps (remember unit m k, w)).1 in
      subst
        (λ saved.
          (deps.dry_run ≡ true)
          ⊎ (((deps.encode k'.memories ≡ saved) × (w' ≡ w))
              ⊎ (((deps.save k'.memories w).0 ≡ none) × (w' ≡ (deps.save k'.memories w).1))))
        (remember-saved unit m k) (save-IsDurable (remember unit m k, w) h)

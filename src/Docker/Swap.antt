-- ===== src/Docker/Swap.antt =====
-- The swap of internal/docker/source.go: how its steps are carried out, how far they got, and how they
-- are undone. The Docker engine is a parameter: each of its calls gives an error, or none.
use tidewaiter.Common.{ℕ, String, Bool, true, false, Option, none, some, List, [], ◌∷◌}
use tidewaiter.Model.{ContainerSpec}
use tidewaiter.Docker.Recreate.{Step, stop, rename, create, connect, start, remove, rollback_name}

abbrev pub Failure : Type 0
Failure = Option String

-- The calls of internal/docker/client.go that a swap makes.
pub record Engine (W : Type 0) : Type 0 where
  pub stop : String → ℕ → W → Failure × W
  pub rename : String → String → W → Failure × W
  pub create : ContainerSpec → W → Failure × W
  pub connect_network : String → ContainerSpec → String → W → Failure × W
  pub start : String → W → Failure × W
  pub remove : String → Bool → W → Failure × W

-- `progress`.
pub record Progress : Type 0 where
  pub stopped : Bool
  pub parked : Bool
  pub created : Bool
  pub started : Bool

abbrev pub nothing_done : Progress
nothing_done = record { stopped = false; parked = false; created = false; started = false }

-- The switch of `run`.
abbrev pub mark : Step → Progress → Progress
mark (stop container grace) done = record done { stopped = true }
mark (rename container to) done = record done { parked = true }
mark (create spec) done = record done { created = true }
mark (start container) done = record done { started = true }
mark _ done = done

-- The steps of `undo`.
abbrev pub restoring : String → Progress → List Step
restoring name done = elim (done.parked) [
  | true ↦ rename (rollback_name name) name ∷ start name ∷ []
  | false ↦ elim (done.stopped) [ true ↦ start name ∷ [] | false ↦ [] ]
]

unfoldable pub undo_steps : String → Progress → List Step
undo_steps name done = elim (done.created) [
  | true ↦ remove name true ∷ restoring name done
  | false ↦ restoring name done
]

module _ {W : Type 0} (engine : Engine W) where
  -- `step`.
  unfoldable pub step : Step → W → Failure × W
  step (stop container grace) w = engine.stop container grace w
  step (rename container to) w = engine.rename container to w
  step (create spec) w = engine.create spec w
  step (connect container network spec) w = engine.connect_network container spec network.name w
  step (start container) w = engine.start container w
  step (remove container force) w = engine.remove container force w

  -- `run`, from how far it got.
  unfoldable pub run : List Step → Progress → W → (Progress × Failure) × W
  unfolding step
  run [] done w = ((done, none), w)
  run (s ∷ rest) done w =
      let (failure, w') = step s w in
      elim failure [ none ↦ run rest (mark s done) w' | some e ↦ ((done, some e), w') ]

  -- `steps`.
  unfoldable pub steps : List Step → W → Failure × W
  unfolding step
  steps [] w = (none, w)
  steps (s ∷ rest) w =
      let (failure, w') = step s w in elim failure [ none ↦ steps rest w' | some e ↦ (some e, w') ]

  -- `undo`, with the error that it logs.
  unfoldable pub undo : String → Progress → W → Failure × W
  unfolding steps undo_steps
  undo name done w = steps (undo_steps name done) w

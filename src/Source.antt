-- ===== src/Source.antt =====
-- internal/source/source.go: a source of workloads as the daemon sees it. What a source does in a
-- call is over a state of the world `W` that the daemon does not look into.
use tidewaiter.Common.{◌≡◌, refl, ◌⊎◌, inl, inr, ℕ, String, Bool, Option, some, List}
use tidewaiter.Decide.{Action}
use tidewaiter.Detect.{ConntrackEntry}

-- The conntrack table of a pass, or `none` where it could not be read.
abbrev pub Table : Type 0
Table = Option (List ConntrackEntry)

pub record Outcome : Type 0 where
  pub workload : String
  pub action : Action
  -- `none` where the workload was not sampled.
  pub busy : Option Bool
  pub settled : Bool

abbrev pub sampled : Bool → Option Bool
sampled busy = some busy

pub record Activity : Type 0 where
  pub workload : String
  pub busy : Bool

-- The answer of a source, or its error.
pub data Answer (A : Type 0) : Type 0 where
  answered : A → Answer A
  errored : String → Answer A

pub Answer-cases :
    {A : Type 0} (a : Answer A) → ((x : A) × (a ≡ answered x)) ⊎ ((e : String) × (a ≡ errored e))
Answer-cases (answered x) = inl (x, refl)
Answer-cases (errored e) = inr (e, refl)

pub answered-injective : {A : Type 0} {x y : A} → answered x ≡ answered y → x ≡ y
answered-injective h = cc

-- A source's pass under way: it ends with its outcomes, or it calls `pass.Hold` on a workload and
-- goes on from the world that the daemon leaves.
pub data Run (W : Type 0) : Type 0 where
  finished : W → Answer (List Outcome) → Run W
  holding : W → String → (W → Run W) → Run W

pub record Source (W : Type 0) : Type 0 where
  pub name : String
  pub once : Table → W → Run W
  pub activity : Table → W → Answer (List Activity) × W

abbrev pub max_swap_failures : ℕ
max_swap_failures = 3

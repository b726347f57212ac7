-- ===== src/Docker/State.antt =====
-- What internal/docker/source.go keeps from pass to pass, and what its source is built from.
use tidewaiter.Common.{ℕ, String, Bool, false, Option, none, some, List, [], ◌∷◌, Map, lookup}
use tidewaiter.Model.{PublishedPort, RunningContainer}
use tidewaiter.Health
use tidewaiter.Detect.{Sample, ProcNetEntry}
use tidewaiter.Source.{Answer}
use tidewaiter.Docker.Recreate.{ImageDefaults}
use tidewaiter.Docker.Swap.{Engine, Failure}

pub data Autoupdate : Type 0 where
  registry local : Autoupdate

pub record Policy : Type 0 where
  pub autoupdate : Autoupdate
  pub detector : String
  pub ports : List PublishedPort
  pub ports_override : Bool
  pub idle_samples : ℕ
  pub health : List String
  pub health_timeout_seconds : ℕ
  pub grace_seconds : Option ℕ
  pub keep_images : ℕ

pub record Image : Type 0 where
  pub ref : String
  pub digest : String

-- `memory`: what is carried about one container. "" is no digest.
pub record Memory : Type 0 where
  pub idle_streak : ℕ
  pub pinned : String
  pub previous : Option Image
  pub kept : List String
  pub adopted : Bool
  pub swap_failures : ℕ
  pub failing : String

-- Go's zero `memory`, which a container that is not remembered has.
abbrev pub no_memory : Memory
no_memory = record {
  idle_streak = 0;
  pinned = "";
  previous = none;
  kept = [];
  adopted = false;
  swap_failures = 0;
  failing = "";
}

-- A background pull that was started.
pub record Pull : Type 0 where
  pub name : String
  pub ref : String
  pub digest : String

-- The fields of `Source` that change, with the lines logged, newest first, and the detector's samples.
pub record Kept : Type 0 where
  pub memory : Map Memory
  pub said : Map String
  pub prefetches : Map String
  pub pulling : List Pull
  pub samples : Map Sample
  pub lines : List String

abbrev pub new_source : Kept
new_source = record {
  memory = [];
  said = [];
  prefetches = [];
  pulling = [];
  samples = [];
  lines = [];
}

abbrev pub State : Type 0 → Type 0
State W = Kept × W

-- An image as the engine has it: its manifest digest, and what its config sets.
pub record LocalImage : Type 0 where
  pub digest : String
  pub defaults : ImageDefaults

pub record Deps (W : Type 0) : Type 0 where
  pub engine : Engine W
  pub dry_run : Bool
  pub default_grace_seconds : ℕ
  -- `Containers`, `Image`, `ImageDigest`, `Pull` and `RemoveImage` of internal/docker/client.go.
  pub containers : W → Answer (List RunningContainer) × W
  pub image : String → W → Answer (Option LocalImage) × W
  pub image_digest : String → W → Answer String × W
  pub pull : String → String → W → Failure × W
  pub remove_image : String → W → Failure × W
  -- The registry's digest of a ref, and the credentials for it.
  pub registry_digest : String → W → Answer String × W
  pub auth_for : String → String
  -- `options.Label`, which opts a container in.
  pub opt_in : String
  -- The sockets of a process, and a container's bytes, or `none` where they cannot be read.
  pub netns : W → ℕ → String → Option (List ProcNetEntry)
  pub net_bytes : String → W → Option Sample × W
  -- The verdict of the two arms of the health gate that was first.
  pub gate : String → Policy → W → Health.Verdict × W

abbrev pub say : String → Kept → Kept
say line k = record k { lines = line ∷ k.lines }

abbrev pub memory_of : String → Kept → Memory
memory_of name k = elim (lookup name k.memory) [ none ↦ no_memory | some m ↦ m ]

-- ===== src/Systemd/State.antt =====
-- What internal/systemd/source.go keeps, what internal/statestore/statestore.go keeps of it across
-- restarts, and what its source is built from.
use tidewaiter.Common.{
  ℕ, String, ◌+s◌, Bool, true, false, ◌&&◌, Option, none, some, List, [], ◌∷◌, Map, lookup, insert,
  delete, if◌then◌else◌, str_eq, ◌==◌,
}
use tidewaiter.Model.{Protocol}
use tidewaiter.Detect.{ConntrackEntry, ProcNetEntry}
use tidewaiter.Health.Checks.{Prober}
use tidewaiter.Source.{Answer, answered, errored}
use tidewaiter.Systemd.Unit.{UnitState, JobResult}
use tidewaiter.Systemd.Settings.{Document}

pub record SwapRecord : Type 0 where
  pub from : Option ℕ
  pub from_target : String
  pub to : String
  pub invocation_id : String

pub record UnitMemory : Type 0 where
  pub pinned : String
  pub failing : String
  pub swap_failures : ℕ
  pub good : Option ℕ
  pub swapping : Option SwapRecord

-- Go's zero `UnitMemory`, which a unit that is not remembered has.
abbrev pub no_memory : UnitMemory
no_memory = record { pinned = ""; failing = ""; swap_failures = 0; good = none; swapping = none }

abbrev pub is_none {ℓ} : {A : Type ℓ} → Option A → Bool
is_none none = true
is_none (some a) = false

abbrev pub is_no_memory : UnitMemory → Bool
is_no_memory m =
    str_eq m.pinned ""
    && str_eq m.failing ""
    && m.swap_failures == 0
    && is_none m.good
    && is_none m.swapping

-- `UnitFile`.
pub record UnitFile : Type 0 where
  pub name : String
  pub contents : String

-- A socket that waits for traffic, and its control group.
pub record Listener : Type 0 where
  pub protocol : Protocol
  pub port : ℕ
  pub group : String

-- The fields of `Source` that change, with the lines logged, newest first. `memories` is empty and
-- `loaded` false until the first pass; `saved` is the text last saved.
pub record Kept : Type 0 where
  pub loaded : Bool
  pub memories : Map UnitMemory
  pub saved : String
  pub streaks : Map ℕ
  pub seen : Map Bool
  pub files : Map String
  pub notes : Map String
  pub lines : List String

abbrev pub new_source : Kept
new_source = record {
  loaded = false;
  memories = [];
  saved = "";
  streaks = [];
  seen = [];
  files = [];
  notes = [];
  lines = [];
}

abbrev pub State : Type 0 → Type 0
State W = Kept × W

abbrev pub Failure : Type 0
Failure = Option String

pub record Deps (W : Type 0) : Type 0 where
  pub dry_run : Bool
  -- Nanoseconds.
  pub health_poll : ℕ
  -- `UnitsDirectory.Read`, and what decoding a file's text gives.
  pub read_units : W → Answer (List UnitFile) × W
  pub decode : String → Document
  -- `Bus`.
  pub unit : String → W → Answer UnitState × W
  pub restart : String → W → Answer JobResult × W
  pub daemon_reload : W → Failure × W
  -- `nix.Profiles`, each by the profile first.
  pub current : String → W → Answer String × W
  pub generation : String → W → Answer ℕ × W
  pub target : String → ℕ → W → Answer String × W
  pub set_profile : String → String → W → Failure × W
  pub switch_generation : String → ℕ → W → Failure × W
  pub delete_generation : String → ℕ → W → Failure × W
  pub prune : String → ℕ → W → Failure × W
  -- `nix.ClosureBinder.Bind`, of a unit, a profile and a target.
  pub bind : String → String → String → W → Failure × W
  -- The host's listening sockets, and whether one was made within a control group.
  pub listening : W → Answer (List Listener)
  pub within : Listener → String → Bool
  pub dump : W → Answer (List ConntrackEntry) × W
  -- `statestore.Store`, and the text that memories are compared by.
  pub load : W → Answer (Map UnitMemory) × W
  pub save : Map UnitMemory → W → Failure × W
  pub encode : Map UnitMemory → String
  pub netns : W → ℕ → String → Option (List ProcNetEntry)
  pub connect : W → Prober
  -- The clock, in nanoseconds, the pass's context, and a sleep in it.
  pub now : W → ℕ
  pub done : W → Option String
  pub sleep : ℕ → W → Option String × W

abbrev pub say : String → Kept → Kept
say line k = record k { lines = line ∷ k.lines }

-- `memory`.
abbrev pub memory_of : String → Kept → UnitMemory
memory_of unit k = elim (lookup unit k.memories) [ none ↦ no_memory | some m ↦ m ]

-- `remember`.
unfoldable pub remember : String → UnitMemory → Kept → Kept
remember unit m k =
    if is_no_memory m
    then record k { memories = delete unit k.memories }
    else record k { memories = insert unit m k.memories }

-- `note`.
unfoldable pub note : String → String → String → Kept → Kept
note unit key message k =
    let id = unit +s "#" +s key in
    if str_eq (elim (lookup id k.notes) [ none ↦ "" | some t ↦ t ]) message
    then k
    else say message (record k { notes = insert id message k.notes })

-- `generationRef` and `generationOf`.
abbrev pub generation_ref : ℕ → Option ℕ
generation_ref n = if n == 0 then none else some n

abbrev pub generation_of : Option ℕ → ℕ
generation_of none = 0
generation_of (some n) = n

-- A call that may fail, over what the source keeps and the world.
abbrev pub Call : Type 0 → Type 0 → Type 0
Call W A = State W → Answer A × State W

infixl 5 ◌>>=◌ ◌>>◌
abbrev pub ◌>>=◌ : {W A B : Type 0} → Call W A → (A → Call W B) → Call W B
◌>>=◌ m f s = elim ((m s).0) [ errored e ↦ (errored e, (m s).1) | answered a ↦ f a (m s).1 ]

abbrev pub ◌>>◌ : {W B : Type 0} → Call W (Unit {0}) → Call W B → Call W B
m >> k = m >>= λ _. k

abbrev pub pure : {W A : Type 0} → A → Call W A
pure a s = (answered a, s)

-- A call of the outside that answers, or only fails or not.
abbrev pub ask : {W A : Type 0} → (W → Answer A × W) → Call W A
ask f (k, w) = let (answer, w') = f w in (answer, (k, w'))

abbrev pub outcome_of : Failure → Answer (Unit {0})
outcome_of none = answered tt
outcome_of (some e) = errored e

abbrev pub tell : {W : Type 0} → (W → Failure × W) → Call W (Unit {0})
tell f (k, w) = let (failure, w') = f w in (outcome_of failure, (k, w'))

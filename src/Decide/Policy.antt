-- ===== src/Decide/Policy.antt =====
-- The policy that the order of the checks in internal/decide/decide.go makes.
use tidewaiter.Common.{◌≤◌, ◌<◌, ◌≡◌, ◌≢◌, ◌↔◌, ◌⊎◌, true, false, arith, eq_iff}
use tidewaiter.Decide.{Inputs, State, Words, Kind, Action, keep, update, defer, pinned, decide}

-- A previous update to this very version failed.
abbrev pub IsPinned : Inputs → State → Type 0
IsPinned input state = (state.pinned ≢ "") × (state.pinned ≡ input.desired)

-- Nobody on it, for the whole debounce.
abbrev pub IsIdle : Inputs → Type 0
IsIdle input = (input.in_use ≡ false) × (input.idle_samples ≤ input.idle_streak)

abbrev pub IsWaited : Inputs → Type 0
IsWaited input = (input.in_use ≡ true) ⊎ (input.idle_streak < input.idle_samples)

-- When each kind of action is due.
abbrev pub Policy : Kind → Inputs → State → Type 0
Policy pinned input state = IsPinned input state
Policy keep input state = (¬ IsPinned input state) × (input.desired ≡ input.current)
Policy defer input state =
    (¬ IsPinned input state) × (input.desired ≢ input.current) × IsWaited input
Policy update input state =
    (¬ IsPinned input state) × (input.desired ≢ input.current) × IsIdle input

-- Each kind of action is decided exactly when the policy has it due: pinned when the desired version
-- is the one that a previous update failed on, even where it is also the current one; else keep when
-- the two versions are one; else defer while the workload is in use or its idle streak is shorter
-- than asked; and update otherwise.
pub decide-Policy :
    (input : Inputs) (state : State) (words : Words) (kind : Kind)
    → ((decide input state words).kind ≡ kind) ↔ Policy kind input state
unfolding decide
decide-Policy input state words pinned = ground (
  arith,
  eq_iff state.pinned "",
  eq_iff state.pinned input.desired,
  eq_iff input.desired input.current,
)
decide-Policy input state words keep = ground (
  arith,
  eq_iff state.pinned "",
  eq_iff state.pinned input.desired,
  eq_iff input.desired input.current,
)
decide-Policy input state words defer = ground (
  arith,
  eq_iff state.pinned "",
  eq_iff state.pinned input.desired,
  eq_iff input.desired input.current,
)
decide-Policy input state words update = ground (
  arith,
  eq_iff state.pinned "",
  eq_iff state.pinned input.desired,
  eq_iff input.desired input.current,
)

-- The versions that an action carries.
abbrev pub Versions : Kind → Inputs → Action → Type 0
Versions update input action = (action.from ≡ input.current) × (action.to ≡ input.desired)
Versions _ input action = (action.from ≡ "") × (action.to ≡ "")

-- An update goes from the current version to the desired one, and any other action names no version.
pub decide-Versions :
    (input : Inputs) (state : State) (words : Words)
    → Versions (decide input state words).kind input (decide input state words)
unfolding decide
decide-Versions input state words = ground arith

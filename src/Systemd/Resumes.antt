-- ===== src/Systemd/Resumes.antt =====
-- What picking up an interrupted swap leaves of the memory of its unit, in internal/systemd/source.go.
use tidewaiter.Common.{◌≢◌, ℕ, String, ◌≡◌, ◌⊎◌, true, false, Option, none}
use tidewaiter.Decide
use tidewaiter.Health.{Verdict}
use tidewaiter.Source.{Answer, answered, errored}
use tidewaiter.Systemd.Settings.{Policy}
use tidewaiter.Systemd.Unit.{UnitState, JobResult}
use tidewaiter.Systemd.State.{UnitMemory, SwapRecord, Kept, State, Deps, memory_of, generation_of}
use tidewaiter.Systemd.Gate.{gate}
use tidewaiter.Systemd.Swap.{cleared, pinned_out}
use tidewaiter.Systemd.Sight.{left_alone, rolled_back_action, gone_good, put_back_steps}

-- The unit still runs what it ran before the swap, or it was stopped and did not fail.
abbrev pub CanPutBack : SwapRecord → UnitState → Type 0
CanPutBack r state = (state.invocation_id ≡ r.invocation_id) ⊎ (state.active_state ≡ "inactive")

-- The unit failed, or its profile is where it was before the swap.
abbrev pub NoneToGate : SwapRecord → UnitState → ℕ → Type 0
NoneToGate r state n =
    (state.active_state ≡ "failed") ⊎ ((generation_of r.from ≢ 0) × (n ≡ generation_of r.from))

-- How the call that picks up an interrupted swap ends, from the state that it is made in, with what its own
-- steps or its own gate, in that world, came to: still on record, as what the swap changed could not be put
-- back or the gate erred; put back, with nothing else forgotten; good, as the gate says healthy; or pinned
-- out, as the gate says that it is not, or as it is not a swap to gate.
pub data Resumes {W : Type 0} (deps : Deps W) (policy : Policy) (r : SwapRecord) (state : UnitState)
    (n : ℕ) (s : State W) : Answer (Option Decide.Action) → UnitMemory → Type 0 where
  stays :
      (k : Kept) (e : String)
      → CanPutBack r state
      → k.memories ≡ s.0.memories
      → (put_back_steps deps policy r n (k, s.1)).0 ≡ errored e
      → Resumes deps policy r state n s
          (answered (left_alone "interrupted swap not yet undone"))
          (memory_of policy.unit s.0)
  back :
      (k : Kept)
      → CanPutBack r state
      → k.memories ≡ s.0.memories
      → (put_back_steps deps policy r n (k, s.1)).0 ≡ answered tt
      → Resumes deps policy r state n s (answered none) (cleared (memory_of policy.unit s.0))
  good :
      (k : Kept) (v : Verdict)
      → ¬ NoneToGate r state n
      → k.memories ≡ s.0.memories
      → (gate deps policy JobResult.done (k, s.1)).0 ≡ answered v
      → v.healthy ≡ true
      → Resumes deps policy r state n s (answered none) (gone_good n (memory_of policy.unit s.0))
  unhealthy :
      (k : Kept) (v : Verdict)
      → ¬ NoneToGate r state n
      → k.memories ≡ s.0.memories
      → (gate deps policy JobResult.done (k, s.1)).0 ≡ answered v
      → v.healthy ≡ false
      → Resumes deps policy r state n s
          (answered rolled_back_action)
          (pinned_out r.to (memory_of policy.unit s.0))
  not_gated :
      NoneToGate r state n
      → Resumes deps policy r state n s
          (answered rolled_back_action)
          (pinned_out r.to (memory_of policy.unit s.0))
  ungated :
      (k : Kept) (e : String)
      → ¬ NoneToGate r state n
      → k.memories ≡ s.0.memories
      → (gate deps policy JobResult.done (k, s.1)).0 ≡ errored e
      → Resumes deps policy r state n s (errored e) (memory_of policy.unit s.0)

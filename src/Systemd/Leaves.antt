-- ===== src/Systemd/Leaves.antt =====
-- What a swap of internal/systemd/source.go leaves of the memory of its unit, by what its moments come to.
use tidewaiter.Common.{ℕ, String, ◌≡◌, true, false, Option, none, some}
use tidewaiter.Decide
use tidewaiter.Detect
use tidewaiter.Health.{Verdict}
use tidewaiter.Source.{Answer, answered, errored}
use tidewaiter.Systemd.Settings.{Policy}
use tidewaiter.Systemd.Unit.{UnitState, JobResult}
use tidewaiter.Systemd.State.{UnitMemory, SwapRecord, Kept, State, Deps, memory_of, remember}
use tidewaiter.Systemd.Gate.{gate}
use tidewaiter.Systemd.Sample.{sample, dump_conntrack}
use tidewaiter.Systemd.Swap.{Change, cleared, pinned_out, save}
use tidewaiter.Systemd.Update.{record_of, deferred, change}
use tidewaiter.Systemd.Saves.{IsDurable}
use tidewaiter.Systemd.Ends.{counted, good_memory}

-- The moments of one swap, each over what the moment before it left.
module _ {W : Type 0} (deps : Deps W) (policy : Policy) (before : UnitState) (current : String)
    (previous : ℕ) where
  abbrev pub this_swap : SwapRecord
  this_swap = record_of policy.desired before.invocation_id current previous

  -- The last look at who uses the unit.
  abbrev pub looked : State W → Detect.Result × State W
  looked (k, w) =
      let (table, w1) = dump_conntrack deps w in sample deps policy before table false (k, w1)

  -- The swap on record.
  abbrev pub noted_memory : Kept → UnitMemory
  noted_memory k = record (memory_of policy.unit k) { swapping = some this_swap }

  abbrev pub noted : State W → State W
  noted s = let (k, w) = (looked s).1 in (remember policy.unit (noted_memory k) k, w)

  -- The record saved.
  abbrev pub started : State W → State W
  started s = (save deps (noted s)).1

  -- The steps that change the unit, and how they ended.
  abbrev pub changed : State W → Change × W
  changed s = change deps policy (started s).1

  -- The gate of the restart.
  abbrev pub gated : JobResult → State W → Answer Verdict × State W
  gated job s = gate deps policy job ((started s).0, (changed s).1)

  -- Nobody used the unit at the last look, and the swap's record is durable.
  abbrev pub HasStarted : State W → Type 0
  HasStarted s = ((looked s).0.in_use ≡ false) × IsDurable deps (looked s).1 (started s)

  -- What a swap from a state answers, with the memory that it leaves of the unit: for each, what the
  -- moments of this very swap came to.
  pub data Leaves (s : State W) : Answer (Option Decide.Action) → UnitMemory → Type 0 where
    arrived :
        (looked s).0.in_use ≡ true
        → Leaves s
            (answered (some (deferred "someone arrived just before the swap")))
            (memory_of policy.unit s.0)
    unrecorded :
        (e : String)
        → (looked s).0.in_use ≡ false
        → (deps.save (noted s).0.memories (noted s).1).0 ≡ some e
        → Leaves s
            (answered (some (deferred "could not record the swap before starting it")))
            (cleared (memory_of policy.unit s.0))
    failed :
        (e : String)
        → HasStarted s
        → (changed s).0.ended ≡ errored e
        → Leaves s (answered none) (counted policy.desired (memory_of policy.unit s.0))
    passed :
        (job : JobResult) (v : Verdict)
        → HasStarted s
        → (changed s).0.ended ≡ answered job
        → (gated job s).0 ≡ answered v
        → v.healthy ≡ true
        → Leaves s (answered none) (good_memory deps policy (gated job s).1.1)
    failed_gate :
        (job : JobResult) (v : Verdict)
        → HasStarted s
        → (changed s).0.ended ≡ answered job
        → (gated job s).0 ≡ answered v
        → v.healthy ≡ false
        → Leaves s (answered none) (pinned_out policy.desired (memory_of policy.unit s.0))
    ungated :
        (job : JobResult) (e : String)
        → HasStarted s
        → (changed s).0.ended ≡ answered job
        → (gated job s).0 ≡ errored e
        → Leaves s (errored e) (record (memory_of policy.unit s.0) { swapping = some this_swap })

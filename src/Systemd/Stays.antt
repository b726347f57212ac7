-- ===== src/Systemd/Stays.antt =====
-- What a chain of calls of internal/systemd/source.go keeps, when each of its calls does.
use tidewaiter.Common.{ℕ, String, ◌≡◌, Bool, arith}
use tidewaiter.Source.{Table}
use tidewaiter.Systemd.Settings.{Policy}
use tidewaiter.Systemd.Unit.{UnitState, JobResult}
use tidewaiter.Systemd.State.{Kept, State, Deps, note, Call}
use tidewaiter.Systemd.Sample.{sample}
use tidewaiter.Systemd.Gate.{gate, gate_done}
use tidewaiter.Systemd.Swap.{
  switch_back, rebind, restart_if_moved, undo_steps, undo, roll_back_steps, roll_back,
}

-- The memories are these.
abbrev pub Remembers : {W : Type 0} → Kept → State W → Type 0
Remembers k s = s.0.memories ≡ k.memories

abbrev pub Preserves : {W A : Type 0} → (State W → Type 0) → Call W A → Type 0
Preserves {W = W} P call = (s : State W) → P s → P (call s).1

module _ {W : Type 0} (deps : Deps W) (k0 : Kept) where
  pub switch_back-Remembers :
      (profile : String) (n : ℕ) (s : State W)
      → Remembers k0 s
      → Remembers k0 (switch_back deps profile n s).1
  unfolding switch_back
  switch_back-Remembers profile n (k, w) h = ground arith

  pub rebind-Remembers :
      (policy : Policy) (target : String) (s : State W)
      → Remembers k0 s
      → Remembers k0 (rebind deps policy target s).1
  rebind-Remembers policy target (k, w) h = ground arith

  restart_if_moved-Remembers :
      (policy : Policy) (before : UnitState) (s : State W)
      → Remembers k0 s
      → Remembers k0 (restart_if_moved deps policy before s).1
  restart_if_moved-Remembers policy before (k, w) h = ground arith

  undo_steps-Remembers :
      (policy : Policy) (before : UnitState) (current : String) (n : ℕ) (bound set : Bool)
      (s : State W)
      → Remembers k0 s
      → Remembers k0 (undo_steps deps policy before current n bound set s).1
  unfolding undo_steps
  undo_steps-Remembers policy before current n bound set (k, w) h =
      ground (arith, switch_back-Remembers policy.profile n (k, w))

  pub gate-Remembers :
      (policy : Policy) (job : JobResult) (s : State W)
      → Remembers k0 s
      → Remembers k0 (gate deps policy job s).1
  unfolding gate gate_done
  gate-Remembers policy job (k, w) h = ground arith

  pub undo-Remembers :
      (policy : Policy) (before : UnitState) (current : String) (n : ℕ) (bound set : Bool)
      (s : State W)
      → Remembers k0 s
      → Remembers k0 (undo deps policy before current n bound set s)
  unfolding undo
  undo-Remembers policy before current n bound set (k, w) h =
      ground (arith, undo_steps-Remembers policy before current n bound set (k, w) h)

  roll_back_steps-Remembers :
      (policy : Policy) (n : ℕ) (target : String) (s : State W)
      → Remembers k0 s
      → Remembers k0 (roll_back_steps deps policy n target s).1
  unfolding roll_back_steps gate gate_done
  roll_back_steps-Remembers policy n target (k, w) h =
      ground (arith, switch_back-Remembers policy.profile n (k, w) h)

  pub roll_back-Remembers :
      (policy : Policy) (n : ℕ) (target : String) (s : State W)
      → Remembers k0 s
      → Remembers k0 (roll_back deps policy n target s)
  unfolding roll_back
  roll_back-Remembers policy n target (k, w) h =
      ground (arith, roll_back_steps-Remembers policy n target (k, w) h)

  pub sample-Remembers :
      (policy : Policy) (state : UnitState) (table : Table) (quiet : Bool) (s : State W)
      → Remembers k0 s
      → Remembers k0 (sample deps policy state table quiet s).1
  unfolding sample note
  sample-Remembers policy state table quiet (k, w) h = ground arith

-- ===== src/Systemd/Unread.antt =====
-- When `load` and `policies` of internal/systemd/source.go, which start a pass, err.
use tidewaiter.Common.{String, ◌+s◌, arith, ◌≡◌, inl, inr, ◌⊎◌, false, Bool-cases}
use tidewaiter.Source.{Answer-cases, errored}
use tidewaiter.Systemd.State.{State, Deps, ◌>>=◌}
use tidewaiter.Systemd.Files.{load, policies}

module _ {W : Type 0} (deps : Deps W) where
  -- The state is not loaded yet, and the store errs.
  abbrev pub CannotLoad : State W → String → Type 0
  CannotLoad (k, w) e =
      (k.loaded ≡ false)
      × ((why : String) × ((deps.load w).0 ≡ errored why)
          × (e ≡ "reading the systemd source's state: " +s why))

  -- The reading of the units errs, after the state was loaded.
  abbrev pub CannotRead : State W → String → Type 0
  CannotRead s e = (deps.read_units (load deps s).1.1).0 ≡ errored e

  load-CannotLoad : (s : State W) (e : String) → (load deps s).0 ≡ errored e → CannotLoad s e
  unfolding load
  load-CannotLoad (k, w) e h = elim (Bool-cases k.loaded) [
    | inl y ↦ absurd (ground arith)
    | inr n ↦ elim (Answer-cases (deps.load w).0) [
      | inl (memories, x) ↦ absurd (ground arith)
      | inr (why, x) ↦ (n, (why, x, ground arith))
    ]
  ]

  policies-CannotRead :
      (s : State W) (e : String)
      → (policies deps s).0 ≡ errored e
      → (deps.read_units s.1).0 ≡ errored e
  unfolding policies
  policies-CannotRead (k, w) e h = elim (Answer-cases (deps.read_units w).0) [
    | inl (files, x) ↦ absurd (ground arith)
    | inr (why, x) ↦ ground arith
  ]

  pub read-errored :
      (s : State W) (e : String)
      → ((load deps >>= λ _. policies deps) s).0 ≡ errored e
      → CannotLoad s e ⊎ CannotRead s e
  read-errored s e h = elim (Answer-cases (load deps s).0) [
    | inl (_, x) ↦ inr (policies-CannotRead (load deps s).1 e (ground arith))
    | inr (why, x) ↦ inl (load-CannotLoad s e (ground arith))
  ]

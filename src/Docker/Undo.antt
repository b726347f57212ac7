-- ===== src/Docker/Undo.antt =====
-- What a swap of internal/docker leaves, however far it got, and what undoing it restores.
use tidewaiter.Common.{
  ℕ, String, ◌≡◌, refl, ◌∙◌, inl, inr, true, false, none, some, List, [], ◌∷◌, eq_iff, eq_refl,
  Option-cases, arith,
}
use tidewaiter.Model.{ContainerSpec, NetworkAttachment}
use tidewaiter.Docker.Recreate.{
  Step, stop, rename, create, connect, start, rollback_name, connects, plan_swap, extra_networks,
}
use tidewaiter.Docker.Host.{Names, IsHost, rollback_name-apart, did, did_not}
use tidewaiter.Docker.Swap.{Engine, Progress, nothing_done, mark, step, run}

-- What a swap that got so far leaves of the original: under its own name and running, stopped, or
-- parked, the name then free until the new container has it.
pub data Left (name : String) (id : String) (done : Progress) (names : Names) : Type 0 where
  untouched :
      done.stopped ≡ false
      → done.parked ≡ false
      → done.created ≡ false
      → names name ≡ some (record { id = id; up = true })
      → names (rollback_name name) ≡ none
      → Left name id done names
  stopped :
      done.stopped ≡ true
      → done.parked ≡ false
      → done.created ≡ false
      → names name ≡ some (record { id = id; up = false })
      → names (rollback_name name) ≡ none
      → Left name id done names
  parked :
      done.parked ≡ true
      → done.created ≡ false
      → names name ≡ none
      → names (rollback_name name) ≡ some (record { id = id; up = false })
      → Left name id done names
  replaced :
      done.parked ≡ true
      → done.created ≡ true
      → names (rollback_name name) ≡ some (record { id = id; up = false })
      → Left name id done names

module _ {W : Type 0} (engine : Engine W) where
  -- What holds after a run holds where its first step failed, and after the rest where it did not.
  run-step :
      (P : Progress → W → Type 0) (s : Step) (rest : List Step) (done : Progress) (w : W)
      → ((step engine s w).0 ≡ none
          → let (out, w') = run engine rest (mark s done) (step engine s w).1 in P out.0 w')
      → ((e : String) → (step engine s w).0 ≡ some e → P done (step engine s w).1)
      → let (out, w') = run engine (s ∷ rest) done w in P out.0 w'
  unfolding run
  run-step P s rest done w passes fails = elim (Option-cases (step engine s w).0) [
    | inl n ↦ rw (n, run) (passes n)
    | inr (e, h) ↦ rw (h, run) (fails e h)
  ]

module _ {W : Type 0} (engine : Engine W) (names : W → Names) (host : IsHost engine names) where
  -- From a new container that stands, the rest of the swap keeps the old one parked.
  connects-Left :
      (name id : String) (spec : ContainerSpec) (ns : List NetworkAttachment) (done : Progress)
      (w : W)
      → done.parked ≡ true
      → done.created ≡ true
      → names w (rollback_name name) ≡ some (record { id = id; up = false })
      → let (out, w') = run engine (connects name spec ns) done w in Left name id out.0 (names w')
  unfolding run step
  connects-Left name id spec [] done w p c kept =
      run-step engine (λ done w. Left name id done (names w)) (start name) [] done w
        (λ n. replaced p c (
          did (engine.start name w).0 (names w) _ _ n (host.starts name w) (rollback_name name)
          ∙ ground (arith, rollback_name-apart name)))
        (λ e h. replaced p c (
          did_not (engine.start name w).0 e (names w) _ _ h (host.starts name w)
            (rollback_name name)
          ∙ kept))
  connects-Left name id spec (n ∷ ns) done w p c kept =
      let kept' : names (step engine (connect name n spec) w).1 (rollback_name name)
          ≡ some (record { id = id; up = false }) =
        host.connects_only name spec n.name w (rollback_name name) ∙ kept in
      run-step engine (λ done w. Left name id done (names w)) (connect name n spec)
        (connects name spec ns) done w
        (λ _. connects-Left name id spec ns done (step engine (connect name n spec) w).1 p c kept')
        (λ e h. replaced p c kept')

  create-Left :
      (name id : String) (spec : ContainerSpec) (done : Progress) (w : W)
      → spec.name ≡ name
      → done.parked ≡ true
      → done.created ≡ false
      → names w name ≡ none
      → names w (rollback_name name) ≡ some (record { id = id; up = false })
      → let (out, w') =
          run engine (create spec ∷ connects name spec (extra_networks spec)) done w in
        Left name id out.0 (names w')
  unfolding run step
  create-Left name id spec done w same p c free kept =
      run-step engine (λ done w. Left name id done (names w)) (create spec)
        (connects name spec (extra_networks spec)) done w
        (λ n.
          connects-Left name id spec (extra_networks spec) (mark (create spec) done)
            (engine.create spec w).1 p refl
            (did (engine.create spec w).0 (names w) _ _ n (host.creates spec w) (rollback_name name)
              ∙ ground (arith, rollback_name-apart name)))
        (λ e h.
          let kept_all = did_not (engine.create spec w).0 e (names w) _ _ h (host.creates spec w) in
          parked p c (kept_all name ∙ free) (kept_all (rollback_name name) ∙ kept))

  rename-Left :
      (name id : String) (spec : ContainerSpec) (done : Progress) (w : W)
      → spec.name ≡ name
      → done.stopped ≡ true
      → done.parked ≡ false
      → done.created ≡ false
      → names w name ≡ some (record { id = id; up = false })
      → names w (rollback_name name) ≡ none
      → let (out, w') =
          run engine
            (rename name (rollback_name name)
              ∷ create spec
              ∷ connects name spec (extra_networks spec))
            done
            w in
        Left name id out.0 (names w')
  unfolding run step
  rename-Left name id spec done w same s p c kept free =
      run-step engine (λ done w. Left name id done (names w)) (rename name (rollback_name name))
        (create spec ∷ connects name spec (extra_networks spec)) done w
        (λ n.
          let moved =
            did (engine.rename name (rollback_name name) w).0 (names w) _ _ n
              (host.renames name (rollback_name name) w) in
          create-Left name id spec (mark (rename name (rollback_name name)) done)
            (engine.rename name (rollback_name name) w).1 same refl c
            (moved name
              ∙ ground (
                arith,
                rollback_name-apart name,
                eq_refl name,
                eq_iff name (rollback_name name),
                eq_iff (rollback_name name) name,
              ))
            (moved (rollback_name name) ∙ ground (arith, eq_refl (rollback_name name))))
        (λ e h.
          let kept_all =
            did_not (engine.rename name (rollback_name name) w).0 e (names w) _ _ h
              (host.renames name (rollback_name name) w) in
          stopped s p c (kept_all name ∙ kept) (kept_all (rollback_name name) ∙ free))

  -- However far a planned swap gets, and whichever of its steps fails, the original container is still
  -- there, exactly where the recorded progress has it: running under its own name, stopped under it, or
  -- stopped under the parked name. It is asked
  -- that the new container's name is the old one's, that the original runs, and that the parked name
  -- is free.
  pub swap-Left :
      (id : String) (spec new_spec : ContainerSpec) (grace : ℕ) (w : W)
      → new_spec.name ≡ spec.name
      → names w spec.name ≡ some (record { id = id; up = true })
      → names w (rollback_name spec.name) ≡ none
      → let (out, w') = run engine (plan_swap spec new_spec grace).swap nothing_done w in
        Left spec.name id out.0 (names w')
  unfolding plan_swap run step
  swap-Left id spec new_spec grace w same up free =
      run-step engine (λ done w. Left spec.name id done (names w)) (stop spec.name grace)
        (rename spec.name (rollback_name spec.name)
          ∷ create new_spec
          ∷ connects spec.name new_spec (extra_networks new_spec))
        nothing_done w
        (λ n.
          let halted =
            did (engine.stop spec.name grace w).0 (names w) _ _ n (host.stops spec.name grace w) in
          rename-Left spec.name id new_spec (mark (stop spec.name grace) nothing_done)
            (engine.stop spec.name grace w).1 same refl refl refl
            (halted spec.name ∙ ground (arith, eq_refl spec.name))
            (halted (rollback_name spec.name) ∙ ground (arith, rollback_name-apart spec.name)))
        (λ e h.
          let kept_all =
            did_not (engine.stop spec.name grace w).0 e (names w) _ _ h
              (host.stops spec.name grace w) in
          untouched refl refl refl (kept_all spec.name ∙ up)
            (kept_all (rollback_name spec.name) ∙ free))

-- ===== src/Docker/Restore.antt =====
-- What undoing a swap of internal/docker restores, however far the swap got.
use tidewaiter.Common.{
  ℕ, String, ◌≡◌, ◌∙◌, ◌⊎◌, inl, inr, Bool, true, false, none, some, List, [], ◌∷◌, eq_refl,
  Option-cases, arith,
}
use tidewaiter.Model.{ContainerSpec}
use tidewaiter.Docker.Recreate.{Step, rename, start, remove, rollback_name, plan_swap}
use tidewaiter.Docker.Swap.{
  Failure, Engine, Progress, nothing_done, undo_steps, step, run, steps, undo,
}
use tidewaiter.Docker.Host.{Names, IsHost, rollback_name-apart, did, did_not}
use tidewaiter.Docker.Undo.{Left, untouched, stopped, parked, replaced, swap-Left}

-- The original runs under its own name, and nothing is parked.
abbrev pub Restored : String → String → Names → Type 0
Restored name id names =
    (names name ≡ some (record { id = id; up = true })) × (names (rollback_name name) ≡ none)

-- The original is somewhere: under its own name, or parked.
abbrev pub Found : String → String → Names → Type 0
Found name id names =
    (up : Bool) × ((names name ≡ some (record { id = id; up = up }))
      ⊎ (names (rollback_name name) ≡ some (record { id = id; up = up })))

module _ {W : Type 0} (engine : Engine W) where
  steps-step :
      (P : Failure → W → Type 0) (s : Step) (rest : List Step) (w : W)
      → ((step engine s w).0 ≡ none → let (e, w') = steps engine rest (step engine s w).1 in P e w')
      → ((e : String) → (step engine s w).0 ≡ some e → P (some e) (step engine s w).1)
      → let (e, w') = steps engine (s ∷ rest) w in P e w'
  unfolding steps
  steps-step P s rest w passes fails = elim (Option-cases (step engine s w).0) [
    | inl n ↦ rw (n, steps) (passes n)
    | inr (e, h) ↦ rw (h, steps) (fails e h)
  ]

module _ {W : Type 0} (engine : Engine W) (names : W → Names) (host : IsHost engine names) where
  abbrev pub Ends : String → String → Failure → W → Type 0
  Ends name id e w = (e ≡ none → Restored name id (names w)) × Found name id (names w)

  start-Ends :
      (name id : String) (w : W)
      → names w name ≡ some (record { id = id; up = false })
      → names w (rollback_name name) ≡ none
      → let (e, w') = steps engine (start name ∷ []) w in Ends name id e w'
  unfolding steps step
  start-Ends name id w kept free =
      steps-step engine (Ends name id) (start name) [] w
        (λ n.
          let now = did (engine.start name w).0 (names w) _ _ n (host.starts name w) in
          let up : names (engine.start name w).1 name ≡ some (record { id = id; up = true }) =
            now name ∙ ground (arith, eq_refl name) in
          (
            λ _. (up, now (rollback_name name) ∙ ground (arith, rollback_name-apart name)),
            (true, inl up),
          ))
        (λ e h.
          let now = did_not (engine.start name w).0 e (names w) _ _ h (host.starts name w) in
          (λ x. absurd cc, (false, inl (now name ∙ kept))))

  rename-Ends :
      (name id : String) (w : W)
      → names w name ≡ none
      → names w (rollback_name name) ≡ some (record { id = id; up = false })
      → let (e, w') = steps engine (rename (rollback_name name) name ∷ start name ∷ []) w in
        Ends name id e w'
  unfolding steps step
  rename-Ends name id w free kept =
      let back = rollback_name name in
      steps-step engine (Ends name id) (rename back name) (start name ∷ []) w
        (λ n.
          let now = did (engine.rename back name w).0 (names w) _ _ n (host.renames back name w) in
          start-Ends name id (engine.rename back name w).1 (now name ∙ ground (arith, eq_refl name))
            (now back ∙ ground (arith, rollback_name-apart name, eq_refl back)))
        (λ e h.
          let now =
            did_not (engine.rename back name w).0 e (names w) _ _ h (host.renames back name w) in
          (λ x. absurd cc, (false, inr (now back ∙ kept))))

  undo-Ends :
      (name id : String) (done : Progress) (w : W)
      → Left name id done (names w)
      → let (e, w') = undo engine name done w in Ends name id e w'
  unfolding undo undo_steps steps step
  undo-Ends name id done w (untouched s p c kept free) =
      let is : undo_steps name done ≡ [] = ground arith in
      rw is ((λ _. (kept, free)), (true, inl kept))
  undo-Ends name id done w (stopped s p c kept free) =
      let is : undo_steps name done ≡ start name ∷ [] = ground arith in
      rw is (start-Ends name id w kept free)
  undo-Ends name id done w (parked p c free kept) =
      let is : undo_steps name done ≡ rename (rollback_name name) name ∷ start name ∷ [] =
        ground arith in
      rw is (rename-Ends name id w free kept)
  undo-Ends name id done w (replaced p c kept) =
      let is : undo_steps name done
          ≡ remove name true ∷ rename (rollback_name name) name ∷ start name ∷ [] =
        ground arith in
      rw is (
        steps-step engine (Ends name id) (remove name true)
          (rename (rollback_name name) name ∷ start name ∷ []) w
          (λ n.
            let now =
              did (engine.remove name true w).0 (names w) _ _ n (host.removes name true w) in
            rename-Ends name id (engine.remove name true w).1
              (now name ∙ ground (arith, eq_refl name))
              (now (rollback_name name) ∙ ground (arith, rollback_name-apart name) ∙ kept))
          (λ e h.
            let now =
              did_not (engine.remove name true w).0 e (names w) _ _ h (host.removes name true w) in
            (λ x. absurd cc, (false, inr (now (rollback_name name) ∙ kept)))))

  -- A planned swap that is undone, whichever of its steps failed or even if none did, leaves the
  -- original container running under its own name with nothing parked, where the undo itself meets no
  -- error; and where it does, the original is still there, under its own name or parked. It is asked
  -- that the new container's name is the old one's, that the original runs, and that the parked name
  -- is free.
  pub undo-Restored :
      (id : String) (spec new_spec : ContainerSpec) (grace : ℕ) (w : W)
      → new_spec.name ≡ spec.name
      → names w spec.name ≡ some (record { id = id; up = true })
      → names w (rollback_name spec.name) ≡ none
      → let (out, w') = run engine (plan_swap spec new_spec grace).swap nothing_done w in
        let (e, w'') = undo engine spec.name out.0 w' in
        (e ≡ none → Restored spec.name id (names w'')) × Found spec.name id (names w'')
  undo-Restored id spec new_spec grace w same up free =
      let swapped = run engine (plan_swap spec new_spec grace).swap nothing_done w in
      undo-Ends spec.name id swapped.0.0 swapped.1
        (swap-Left engine names host id spec new_spec grace w same up free)

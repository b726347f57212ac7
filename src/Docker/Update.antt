-- ===== src/Docker/Update.antt =====
-- The update of internal/docker/source.go: pull, swap, health gate, commit or roll back, and what is
-- remembered of it.

use text.Mathlib.Text.{starts_with}
use tidewaiter.Common.{
  ℕ, suc, String, ◌+s◌, true, not, Option, none, some, List, if◌then◌else◌, str_eq, leb, decimal,
}
use tidewaiter.Decide
use tidewaiter.Model.{ContainerSpec, RunningContainer}
use tidewaiter.Source.{max_swap_failures}
use tidewaiter.Docker.Recreate.{
  ImageDefaults, unrecreatable, without_image_defaults, plan_swap, Plan,
}
use tidewaiter.Docker.Swap.{Failure, Progress, nothing_done, run, steps, undo}
use tidewaiter.Docker.Images.{prune}
use tidewaiter.Docker.State.{
  registry, local, Policy, Image, Memory, no_memory, Kept, State, Deps, say,
}

-- How many seconds the old container has to stop.
abbrev pub grace_of : ℕ → Policy → ContainerSpec → ℕ
grace_of default policy spec = elim (policy.grace_seconds) [
  | some s ↦ s
  | none ↦ elim (spec.stop_timeout) [ some s ↦ s | none ↦ default ]
]

-- `leaving`.
abbrev pub leaving_of : ContainerSpec → String → Option Image
leaving_of spec current =
    if str_eq current "" then none else some (record { ref = spec.image; digest = current })

-- What is remembered of a swap that failed at a step.
unfoldable pub swap_failed : Memory → Option Image → String → Memory
swap_failed base leaving desired =
    let failures = if str_eq base.failing desired then suc base.swap_failures else 1 in
    record base {
      previous = leaving;
      swap_failures = failures;
      failing = desired;
      pinned = if leb max_swap_failures failures then desired else base.pinned;
    }

-- What is remembered of a new container that was unhealthy.
abbrev pub turned_out_unhealthy : Memory → Option Image → String → Memory
turned_out_unhealthy base leaving desired = record base { pinned = desired; previous = leaving }

-- What is remembered of an update that was committed.
abbrev pub committed : Memory → Option Image → List String → Memory
committed base leaving kept = record no_memory {
  idle_streak = base.idle_streak;
  kept = kept;
  previous = leaving;
  adopted = true;
}

module _ {W : Type 0} (deps : Deps W) where
  open deps use {engine, dry_run, default_grace_seconds, pull, remove_image, auth_for, gate}

  -- `undo`, which logs that it failed.
  abbrev pub undo_logged : String → Progress → State W → State W
  undo_logged name done (k, w) =
      let (failure, w') = undo engine name done w in
      (
        elim failure [
          | none ↦ k
          | some e ↦
              say (name +s ": rollback itself failed (" +s e +s "); manual attention needed") k
        ],
        w',
      )

  -- The end of `update` where the gate found the new container healthy.
  unfoldable pub commit_swap :
      String → Plan → Policy → Memory → Option Image → String → State W → Memory × State W
  unfolding prune
  commit_swap name plan policy base leaving desired (k, w) =
      let (failure, w') = steps engine plan.commit w in
      let k' : Kept = elim failure [
        | none ↦ k
        | some e ↦
            say (name +s ": updated, but cleaning up the old container failed (" +s e +s ")") k
      ] in
      let pruned : List String × State W = elim leaving [
        | none ↦ (base.kept, (k', w'))
        | some old ↦ prune deps name old base.kept policy.keep_images (k', w')
      ] in
      (
        committed base leaving pruned.0,
        (say (name +s ": updated to " +s desired +s " and it is healthy") pruned.1.0, pruned.1.1),
      )

  -- The end of `update` where it was unhealthy.
  unfoldable pub roll_back_swap :
      String → Progress → String → Memory → Option Image → String → State W → Memory × State W
  roll_back_swap name done reason base leaving desired (k, w) =
      let (k', w') =
        undo_logged name done
          (say (name +s ": new image is unhealthy (" +s reason +s "); rolling back") k, w) in
      (
        turned_out_unhealthy base leaving desired,
        (
          say
              (name
                +s ": rolled back to the previous image and pinned it out until the tag moves on")
              k',
          w',
        ),
      )

  -- The end of `update` where a step of the swap failed.
  unfoldable pub abandon_swap :
      String → Progress → String → Memory → Option Image → String → State W → Memory × State W
  unfolding swap_failed
  abandon_swap name done e base leaving desired (k, w) =
      let (k', w') =
        undo_logged name done
          (say (name +s ": FAILED during swap (" +s e +s "); undoing what was done") k, w) in
      let next = swap_failed base leaving desired in
      (
        next,
        (
          if leb max_swap_failures next.swap_failures
              then say
                  (name
                    +s ": swap has failed "
                    +s decimal next.swap_failures
                    +s " times running for "
                    +s desired
                    +s "; pinning it out until the tag moves on")
                  k'
              else k',
          w',
        ),
      )

  -- `update` from the swap on.
  unfoldable pub swap :
      String → Plan → Policy → Memory → Option Image → String → State W → Memory × State W
  unfolding run commit_swap roll_back_swap abandon_swap
  swap name plan policy base leaving desired (k, w) =
      let ((done, failure), w') = run engine plan.swap nothing_done w in
      elim failure [
        | some e ↦ abandon_swap name done e base leaving desired (k, w')
        | none ↦
            let (verdict, w'') = gate name policy w' in
            if verdict.healthy
            then commit_swap name plan policy base leaving desired (k, w'')
            else roll_back_swap name done verdict.reason base leaving desired (k, w'')
      ]

  -- The pull of `update`: only the registry policy pulls.
  abbrev pub pulled : Policy → String → W → Failure × W
  pulled policy ref w = elim (policy.autoupdate) [
    | local ↦ (none, w)
    | registry ↦ pull ref (auth_for ref) w
  ]

  abbrev pub note_shared : ContainerSpec → Kept → Kept
  note_shared spec k =
      if starts_with spec.network_mode "container:"
      then say
          (spec.name +s ": network mode is '" +s spec.network_mode
            +s "', which shares another container's netns; recreating it verbatim - if that container was replaced the reference may be stale")
          k
      else k

  -- `update`.
  unfoldable pub update :
      RunningContainer
      → Option ImageDefaults
      → Policy
      → Memory
      → String
      → String
      → State W
      → Memory × State W
  unfolding swap
  update container found policy base desired current (k, w) =
      let spec = container.spec in
      let reason = unrecreatable spec in
      if not (str_eq reason "")
      then (base, (say (spec.name +s ": " +s reason) k, w))
      else elim found [
        | none ↦ (
          base,
          (
            say
                (spec.name +s ": the image it was created from (" +s container.image_id
                  +s ") is no longer here, so which of its settings are its own and which that image's cannot be told; deferring rather than carry the old image's defaults onto the new one")
                k,
            w,
          ),
        )
        | some defaults ↦
            let plan =
              plan_swap spec (without_image_defaults spec defaults)
                (grace_of default_grace_seconds policy spec) in
            let k' = note_shared spec k in
            let (failure, w') = pulled policy spec.image w in
            elim failure [
              | some e ↦ (
                base,
                (
                  say
                      (spec.name +s ": FAILED to pull " +s spec.image +s " (" +s e
                        +s "); leaving it running")
                      k',
                  w',
                ),
              )
              | none ↦ swap spec.name plan policy base (leaving_of spec current) desired (k', w')
            ]
      ]

  -- `apply`.
  unfoldable pub apply :
      Decide.Action
      → RunningContainer
      → Option ImageDefaults
      → Policy
      → Memory
      → ℕ
      → String
      → String
      → State W
      → Memory × State W
  unfolding update
  apply action container defaults policy previous idle_streak desired current (k, w) =
      let name = container.spec.name in
      let base = record previous { idle_streak = idle_streak } in
      elim (action.kind) [
        | Decide.keep ↦ (base, (k, w))
        | Decide.defer ↦ (base, (say (name +s ": " +s action.reason) k, w))
        | Decide.pinned ↦ (record base { pinned = desired }, (k, w))
        | Decide.update ↦
            let k' = say (name +s ": updating - " +s action.reason) k in
            if dry_run
            then (base, (say (name +s ": dry run, not touching it") k', w))
            else update container defaults policy base desired current (k', w)
      ]

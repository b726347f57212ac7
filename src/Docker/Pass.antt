-- ===== src/Docker/Pass.antt =====
-- `reconcile`, `Once` and `Activity` of internal/docker/source.go, as the source that the daemon runs.
use tidewaiter.Common.{
  ℕ, String, ◌+s◌, Bool, true, false, Option, none, some, List, [], ◌∷◌, ◌++◌, insert,
  if◌then◌else◌, str_eq,
}
use tidewaiter.Decide
use tidewaiter.Model.{published, RunningContainer}
use tidewaiter.Source.{
  Table, Outcome, Activity, Answer, answered, errored, Run, finished, holding, Source,
}
use tidewaiter.Docker.Recreate.{ImageDefaults}
use tidewaiter.Docker.State.{
  registry, local, Policy, Memory, Kept, State, LocalImage, Deps, say, memory_of,
}
use tidewaiter.Docker.Labels.{parse_labels}
use tidewaiter.Docker.Update.{apply}
use tidewaiter.Docker.Reconcile.{
  note, still_pinned, adopt, streak_after, keep_as, outcome_of, holds_it, desired_of, prefetch,
  sample, decision,
}

abbrev pub digest_of : Option LocalImage → String
digest_of none = ""
digest_of (some i) = i.digest

abbrev pub defaults_of : Option LocalImage → Option ImageDefaults
defaults_of none = none
defaults_of (some i) = some i.defaults

-- A container that is not opted in.
abbrev pub not_opted_in : String → Outcome
not_opted_in name = record {
  workload = name;
  action = Decide.plain Decide.keep "not opted in";
  busy = some false;
  settled = true;
}

abbrev pub where_of : Policy → String
where_of policy = elim (policy.autoupdate) [ local ↦ "local image" | registry ↦ "registry" ]

module _ {W : Type 0} (deps : Deps W) where
  open deps use {dry_run, containers, image, opt_in}

  -- What comes after one container's outcome.
  abbrev pub Next : Type 0
  Next = Outcome → State W → Run (State W)

  -- The end of `reconcile`, once the container is held where it has to be.
  unfoldable pub carry_out :
      RunningContainer
      → Policy
      → Decide.Action
      → Option LocalImage
      → Memory
      → Bool
      → ℕ
      → String
      → Next
      → State W
      → Run (State W)
  unfolding apply
  carry_out container policy action found m in_use streak desired next s =
      let (m', (k, w)) =
        apply deps action container (defaults_of found) policy m streak desired (digest_of found)
          s in
      next (outcome_of container.spec.name action in_use streak policy)
        (record k { memory = insert container.spec.name m' k.memory }, w)

  -- `reconcile` from the running image on.
  unfoldable pub decided :
      Table
      → RunningContainer
      → Policy
      → String
      → Option LocalImage
      → Next
      → State W
      → Run (State W)
  unfolding carry_out sample prefetch
  decided table container policy desired found next (k, w) =
      let name = container.spec.name in
      let current = digest_of found in
      let (m, k1) = adopt name current desired (still_pinned desired (memory_of name k), k) in
      let k2 = prefetch deps container policy desired current m.pinned k1 in
      let (result, s) = sample deps container policy table true (k2, w) in
      let streak = streak_after result.in_use m.idle_streak in
      let action = decision deps policy m desired current result.in_use streak in
      if holds_it action dry_run
      then holding s name
          (carry_out container policy action found m result.in_use streak desired next)
      else carry_out container policy action found m result.in_use streak desired next s

  abbrev pub on_image :
      Table
      → RunningContainer
      → Policy
      → String
      → Next
      → Kept
      → Answer (Option LocalImage) × W
      → Run (State W)
  on_image table container policy desired next k (errored e, w) =
      let name = container.spec.name in
      next (keep_as name "running image digest unreadable") (
        say (name +s ": could not read the running image digest (" +s e +s "); leaving it alone") k,
        w,
      )
  on_image table container policy desired next k (answered found, w) =
      decided table container policy desired found next (k, w)

  abbrev pub on_desired :
      Table → RunningContainer → Policy → Next → Kept → Answer String × W → Run (State W)
  on_desired table container policy next k (errored e, w) =
      let name = container.spec.name in
      let where_from = where_of policy in
      next (keep_as name (where_from +s " unreachable")) (
        say
            (name +s ": could not resolve " +s where_from +s " digest (" +s e
              +s "); leaving it alone")
            k,
        w,
      )
  on_desired table container policy next k (answered desired, w) =
      if str_eq desired ""
      then next (keep_as container.spec.name "no local image for the tag to update to") (k, w)
      else on_image table container policy desired next k (image container.image_id w)

  -- `reconcile`.
  unfoldable pub reconcile : Table → RunningContainer → Next → State W → Run (State W)
  unfolding note decided desired_of
  reconcile table container next (k, w) =
      let spec = container.spec in
      let (found, warnings) = parse_labels opt_in spec.labels (published spec) in
      let k' = note spec.name warnings k in
      elim found [
        | none ↦ next (not_opted_in spec.name) (k', w)
        | some policy ↦
            on_desired table container policy next k' (desired_of deps spec.image policy w)
      ]

  -- The loop of `Once`.
  unfoldable pub reconcile_all :
      Table → List RunningContainer → List Outcome → State W → Run (State W)
  unfolding reconcile
  reconcile_all table [] outcomes s = finished s (answered outcomes)
  reconcile_all table (c ∷ cs) outcomes s =
      reconcile table c (λ o s'. reconcile_all table cs (outcomes ++ o ∷ []) s') s

  -- `Once`.
  unfoldable pub once : Table → State W → Run (State W)
  unfolding reconcile_all
  once table (k, w) =
      let (answer, w') = containers w in
      elim answer [
        | errored e ↦ finished (k, w') (errored e)
        | answered found ↦ reconcile_all table found [] (k, w')
      ]

  -- The loop of `Activity`.
  unfoldable pub sample_all : Table → List RunningContainer → State W → List Activity × State W
  unfolding sample
  sample_all table [] s = ([], s)
  sample_all table (c ∷ cs) s =
      let (policy, warnings) = parse_labels opt_in c.spec.labels (published c.spec) in
      elim policy [
        | none ↦ sample_all table cs s
        | some p ↦
            let (result, s') = sample deps c p table false s in
            let (rest, s'') = sample_all table cs s' in
            ((record { workload = c.spec.name; busy = result.in_use }) ∷ rest, s'')
      ]

  -- `Activity`.
  unfoldable pub activity : Table → State W → Answer (List Activity) × State W
  unfolding sample_all
  activity table (k, w) =
      let (answer, w') = containers w in
      elim answer [
        | errored e ↦ (errored e, (k, w'))
        | answered found ↦
            let (activities, s) = sample_all table found (k, w') in (answered activities, s)
      ]

  -- The source as the daemon has it.
  abbrev pub docker : Source (State W)
  docker = record { name = "docker"; once = once; activity = activity }

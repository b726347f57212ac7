-- ===== src/Docker/Listing.antt =====
-- `List` of internal/docker/source.go: a line for every container that is opted in.
use tidewaiter.Common.{
  String, ◌+s◌, Bool, false, Option, none, some, List, [], ◌∷◌, if◌then◌else◌, str_eq, join,
  decimal,
}
use tidewaiter.Model.{published, RunningContainer}
use tidewaiter.Source.{Answer, answered, errored}
use tidewaiter.Docker.State.{Autoupdate, registry, local, Policy, Deps}
use tidewaiter.Docker.Labels.{parse_labels}
use tidewaiter.Docker.Reconcile.{desired_of}

abbrev pub autoupdate_text : Autoupdate → String
autoupdate_text registry = "registry"
autoupdate_text local = "local"

abbrev pub is_current : Answer String → String → Bool
is_current (answered current) desired = str_eq current desired
is_current (errored e) desired = false

module _ {W : Type 0} (deps : Deps W) where
  open deps use {containers, image_digest, opt_in}

  -- The state of a container whose desired digest could be told.
  abbrev pub compared : RunningContainer → String → W → String × W
  compared container desired w =
      let (current, w') = image_digest container.image_id w in
      (if is_current current desired then "up to date" else "update available", w')

  -- The switch of `List`.
  unfoldable pub state_of : RunningContainer → Policy → Answer String → W → String × W
  state_of container policy (errored e) w =
      (elim (policy.autoupdate) [ local ↦ "no local image" | registry ↦ "registry unreachable" ], w)
  state_of container policy (answered desired) w = elim (policy.autoupdate) [
    | local ↦ if str_eq desired "" then ("no local image", w) else compared container desired w
    | registry ↦ compared container desired w
  ]

  abbrev pub line_of : RunningContainer → Policy → String → String
  line_of container policy state =
      container.spec.name
      +s "  "
      +s container.spec.image
      +s "  ["
      +s state
      +s "]  autoupdate="
      +s autoupdate_text policy.autoupdate
      +s " detector="
      +s policy.detector
      +s " health="
      +s join "," policy.health
      +s " idle-samples="
      +s decimal policy.idle_samples

  -- One line, of a container whose labels spell that policy, or none.
  unfoldable pub listed : RunningContainer → Option Policy → W → String × W
  unfolding state_of desired_of
  listed container none w = (
    container.spec.name +s "  " +s container.spec.image +s "  [not a known autoupdate policy]",
    w,
  )
  listed container (some policy) w =
      let (desired, w1) = desired_of deps container.spec.image policy w in
      let (state, w2) = state_of container policy desired w1 in (line_of container policy state, w2)

  -- The loop of `List`.
  unfoldable pub list_all : List RunningContainer → W → List String × W
  unfolding listed
  list_all [] w = ([], w)
  list_all (c ∷ cs) w =
      let (policy, warnings) = parse_labels opt_in c.spec.labels (published c.spec) in
      let (line, w1) = listed c policy w in let (rest, w2) = list_all cs w1 in (line ∷ rest, w2)

  -- `List`.
  unfoldable pub list : W → Answer (List String) × W
  unfolding list_all
  list w =
      let (answer, w') = containers w in
      elim answer [
        | errored e ↦ (errored e, w')
        | answered found ↦ let (lines, w'') = list_all found w' in (answered lines, w'')
      ]

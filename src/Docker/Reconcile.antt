-- ===== src/Docker/Reconcile.antt =====
-- The pass of internal/docker/source.go: what it samples, decides and applies for one container, and
-- the background pulls. The containers of a pass follow one another, as a `Run` that the daemon drives:
-- it stops where a swap is about to start, for the daemon to hold the container.
use tidewaiter.Common.{
  ℕ, suc, String, ◌+s◌, Bool, true, false, not, ◌&&◌, ◌||◌, Option, none, some, List, [], ◌∷◌, ◌++◌,
  lookup, insert, delete, if◌then◌else◌, str_eq, leb, is_empty, join,
}
use tidewaiter.Decide
use tidewaiter.Detect
use tidewaiter.Model.{PublishedPort, published, RunningContainer}
use tidewaiter.Source.{Table, Outcome, Answer}
use tidewaiter.Docker.Swap.{Failure}
use tidewaiter.Docker.State.{
  Autoupdate, registry, local, Policy, Image, Memory, Pull, Kept, State, Deps, say,
}

-- `detect.ByName`'s detectors and netio, by name; no answer is an error, and `none` no such detector.
pub data Sensed : Type 0 where
  unknown failing : Sensed
  sensed : Detect.Result → Sensed

abbrev pub sensed_or : Option Detect.Result → Sensed
sensed_or none = failing
sensed_or (some r) = sensed r

-- `note`: warnings are said when they differ from what was last said.
abbrev pub say_all : String → List String → Kept → Kept
say_all name [] k = k
say_all name (warning ∷ rest) k = say_all name rest (say (name +s ": " +s warning) k)

unfoldable pub note : String → List String → Kept → Kept
note name warnings k =
    let said = join "\n" warnings in
    if str_eq (elim (lookup name k.said) [ none ↦ "" | some t ↦ t ]) said
    then k
    else say_all name warnings (record k { said = insert name said k.said })

-- The pin, which only holds until the tag moves on.
abbrev pub still_pinned : String → Memory → Memory
still_pinned desired m =
    if not (str_eq m.pinned "") && not (str_eq m.pinned desired)
    then record m { pinned = "" }
    else m

-- Whether the running image is one that no update of ours left behind.
abbrev pub is_unrecorded : Option Image → String → Bool
is_unrecorded none current = true
is_unrecorded (some i) current = not (str_eq i.digest current)

abbrev pub is_first_sight : Memory → String → String → Bool
is_first_sight m current desired =
    not m.adopted && not (str_eq current desired) && is_unrecorded m.previous current

-- Adopting a baseline.
abbrev pub adopt : String → String → String → Memory × Kept → Memory × Kept
adopt name current desired (m, k) =
    if is_first_sight m current desired
    then (
      record m { adopted = true },
      say
          (name
            +s ": adopting the running image as the current baseline (no rollback record from a prior run)")
          k,
    )
    else (m, k)

-- The streak of idle samples.
abbrev pub streak_after : Bool → ℕ → ℕ
streak_after true streak = 0
streak_after false streak = suc streak

-- The end of a background pull.
unfoldable pub pull_ended : Pull → Failure → Kept → Kept
pull_ended pull none k = k
pull_ended pull (some e) k =
    let cleared =
      if str_eq (elim (lookup pull.name k.prefetches) [ none ↦ "" | some d ↦ d ]) pull.digest
      then record k { prefetches = delete pull.name k.prefetches }
      else k in
    say (pull.name +s ": prefetch of " +s pull.ref +s " failed (" +s e +s "); will retry") cleared

abbrev pub is_registry : Autoupdate → Bool
is_registry registry = true
is_registry local = false

-- `Outcome` of a container that is left alone unsampled.
abbrev pub keep_as : String → String → Outcome
keep_as name reason = record {
  workload = name;
  action = Decide.plain Decide.keep reason;
  busy = none;
  settled = false;
}

abbrev pub outcome_of : String → Decide.Action → Bool → ℕ → Policy → Outcome
outcome_of name action in_use streak policy = record {
  workload = name;
  action = action;
  busy = some in_use;
  settled =
      not in_use
      && leb policy.idle_samples streak
      && elim (action.kind) [ Decide.update ↦ false | _ ↦ true ];
}

abbrev pub holds_it : Decide.Action → Bool → Bool
holds_it action dry_run = elim (action.kind) [ Decide.update ↦ not dry_run | _ ↦ false ]

module _ {W : Type 0} (deps : Deps W) where
  open deps use {dry_run, containers, image, image_digest, registry_digest, netns, net_bytes}

  -- `desired`.
  unfoldable pub desired_of : String → Policy → W → Answer String × W
  desired_of ref policy w = elim (policy.autoupdate) [
    | local ↦ image_digest ref w
    | registry ↦ registry_digest ref w
  ]

  -- `prefetch`: the pull that it starts.
  unfoldable pub prefetch : RunningContainer → Policy → String → String → String → Kept → Kept
  prefetch container policy desired current pinned k =
      let name = container.spec.name in
      let ref = container.spec.image in
      if dry_run
        || not (is_registry policy.autoupdate)
        || str_eq desired current
        || str_eq desired pinned
      then k
      else if str_eq (elim (lookup name k.prefetches) [ none ↦ "" | some d ↦ d ]) desired
      then k
      else say
          (name +s ": prefetching " +s ref
            +s " in the background so the swap is ready when the tide goes out")
          (record k {
            prefetches = insert name desired k.prefetches;
            pulling = k.pulling ++ (record { name = name; ref = ref; digest = desired }) ∷ [];
          })

  -- `detector.InUse` of netio, at `DefaultNetioThreshold`.
  abbrev pub in_use_netio : String → State W → Sensed × State W
  in_use_netio id (k, w) =
      let (now, w') = net_bytes id w in
      let (result, samples) = Detect.netio 1024 id now k.samples in
      (sensed_or result, (record k { samples = samples }, w'))

  abbrev pub sense :
      Policy → List PublishedPort → Table → RunningContainer → State W → Sensed × State W
  sense policy ports table container (k, w) =
      if str_eq policy.detector "netio"
      then in_use_netio container.id (k, w)
      else if str_eq policy.detector "conntrack"
      then (
        elim table [ none ↦ unknown | some entries ↦ sensed (Detect.conntrack ports entries) ],
        (k, w),
      )
      else if str_eq policy.detector "tcp"
      then (sensed_or (Detect.tcp_sockets ports container.pid (netns w)), (k, w))
      else if str_eq policy.detector "none"
      then (sensed Detect.idle, (k, w))
      else (unknown, (k, w))

  -- The end of `sample`; the text of a detector's error is not carried.
  abbrev pub concluded : String → String → Bool → Sensed → Kept → Detect.Result × Kept
  concluded name detector aloud unknown k = (Detect.cannot_tell, k)
  concluded name detector aloud failing k = (
    Detect.cannot_tell,
    if aloud
        then say (name +s ": activity detector '" +s detector +s "' failed; assuming busy") k
        else k,
  )
  concluded name detector aloud (sensed r) k = (Detect.combine (r ∷ []), k)

  -- `sample`.
  unfoldable pub sample :
      RunningContainer → Policy → Table → Bool → State W → Detect.Result × State W
  sample container policy table aloud (k, w) =
      if policy.ports_override && is_empty policy.ports
      then (Detect.cannot_tell, (k, w))
      else let ports = if policy.ports_override then policy.ports else published container.spec in
        let (found, (k', w')) = sense policy ports table container (k, w) in
        let (result, k'') = concluded container.spec.name policy.detector aloud found k' in
        (result, (k'', w'))

  -- The part of `reconcile` that decides, over the sample.
  abbrev pub decision : Policy → Memory → String → String → Bool → ℕ → Decide.Action
  decision policy m desired current in_use streak =
      Decide.decide
        (record {
          idle_samples = policy.idle_samples;
          current = current;
          desired = desired;
          in_use = in_use;
          idle_streak = streak;
        })
        (record { pinned = m.pinned }) Decide.image_words

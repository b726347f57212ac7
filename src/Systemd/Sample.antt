-- ===== src/Systemd/Sample.antt =====
-- `sample`, `dumpConntrack` and the profile's reading of internal/systemd/source.go: what is looked at
-- before anything is decided.
use tidewaiter.Common.{
  ℕ, String, ◌+s◌, Bool, ◌&&◌, Option, none, some, [], ◌∷◌, if◌then◌else◌, str_eq, is_empty, ◌==◌,
}
use tidewaiter.Detect
use tidewaiter.Source.{Table, answered, errored}
use tidewaiter.Systemd.Unit.{UnitState}
use tidewaiter.Systemd.Settings.{Policy}
use tidewaiter.Systemd.State.{Kept, State, Deps, Call, ◌>>=◌, pure, ask, say, note}

-- `detect.ByName`, and what its detector answers; no answer is an error.
pub data Sensed : Type 0 where
  unknown failing : Sensed
  sensed : Detect.Result → Sensed

abbrev pub sensed_or : Option Detect.Result → Sensed
sensed_or none = failing
sensed_or (some r) = sensed r

module _ {W : Type 0} (deps : Deps W) where
  open deps use {netns, dump, current, generation}

  abbrev pub sense : Policy → UnitState → Table → W → Sensed
  sense policy state table w =
      if str_eq policy.detector "conntrack"
      then elim table [
        | none ↦ unknown
        | some entries ↦ sensed (Detect.conntrack policy.ports entries)
      ]
      else if str_eq policy.detector "tcp"
      then sensed_or (Detect.tcp_sockets policy.ports state.main_pid (netns w))
      else if str_eq policy.detector "none"
      then sensed Detect.idle
      else unknown

  no_ports : Policy → Bool → Kept → Kept
  unfolding note
  no_ports policy quiet k =
      if quiet
      then k
      else note policy.unit "no-ports"
          (policy.unit +s ": declares no ports, so its activity cannot be read; assuming busy") k

  -- The end of `sample`; the text of a detector's error is not carried.
  abbrev pub concluded : Policy → Bool → Sensed → Kept → Detect.Result × Kept
  concluded policy quiet unknown k = (Detect.cannot_tell, k)
  concluded policy quiet failing k = (
    Detect.cannot_tell,
    if quiet
        then k
        else say
            (policy.unit +s ": activity detector '" +s policy.detector +s "' failed; assuming busy")
            k,
  )
  concluded policy quiet (sensed r) k = (Detect.combine (r ∷ []), k)

  -- `sample`.
  unfoldable pub sample : Policy → UnitState → Table → Bool → State W → Detect.Result × State W
  unfolding no_ports
  sample policy state table quiet (k, w) =
      if str_eq policy.detector "none"
      then (Detect.idle, (k, w))
      else if is_empty policy.ports
      then (Detect.cannot_tell, (no_ports policy quiet k, w))
      else if str_eq policy.detector "tcp" && state.main_pid == 0
      then (Detect.cannot_tell, (k, w))
      else let (result, k') = concluded policy quiet (sense policy state table w) k in
        (result, (k', w))

  -- `dumpConntrack`.
  unfoldable pub dump_conntrack : W → Table × W
  dump_conntrack w =
      let (answer, w') = dump w in
      elim answer [ errored e ↦ (none, w') | answered entries ↦ (some entries, w') ]

  -- The profile's target and generation.
  abbrev pub profile_of : String → Call W (String × ℕ)
  profile_of profile =
      ask (current profile) >>= λ target. ask (generation profile) >>= λ n. pure (target, n)

  -- `readProfile`; `none` is its false.
  unfoldable pub read_profile : Policy → State W → Option (String × ℕ) × State W
  read_profile policy s =
      let (answer, (k, w)) = profile_of policy.profile s in
      elim answer [
        | errored e ↦ (
          none,
          (
            say
                (policy.unit +s ": could not read the profile " +s policy.profile +s " (" +s e
                  +s "); leaving it alone")
                k,
            w,
          ),
        )
        | answered found ↦ (some found, (k, w))
      ]

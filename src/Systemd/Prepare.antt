-- ===== src/Systemd/Prepare.antt =====
-- internal/systemd/prepare.go: every unit that is declared is made startable before anything starts it.
-- The profiles, the closure's binding and systemd are parameters; the log is a list, newest first.
pub mod Gentle
mod Examples
use tidewaiter.Common.{
  String, ◌+s◌, Bool, true, false, not, ◌||◌, Option, none, some, List, [], ◌∷◌, ◌++◌, is_empty,
  if◌then◌else◌, str_eq, contains,
}
use tidewaiter.Source.{Answer, answered, errored}
use tidewaiter.Systemd.Settings.{Policy, Document}
use tidewaiter.Systemd.Parse.{parse_policy}
use tidewaiter.Systemd.State.{UnitFile, Failure}

-- `PrepareDeps`, each call by the unit or the profile first.
pub record PrepareDeps (W : Type 0) : Type 0 where
  pub read_units : W → Answer (List UnitFile) × W
  pub decode : String → Document
  pub current : String → W → Answer String × W
  pub set_profile : String → String → W → Failure × W
  -- `Ensure`: whether it wrote, of a unit, a profile and a target.
  pub ensure : String → String → String → W → Answer Bool × W
  pub daemon_reload : W → Failure × W

pub record Prepared : Type 0 where
  pub seeded : List String
  pub bound : List String
  pub failed : List String

abbrev pub nothing : Prepared
nothing = record { seeded = []; bound = []; failed = [] }

abbrev pub Logged : Type 0 → Type 0
Logged W = List String × W

-- What `prepareUnit` returns.
pub record Ready : Type 0 where
  pub seeded : Bool
  pub bound : Bool
  pub failure : Failure

abbrev pub add_if : Bool → String → List String → List String
add_if true unit units = units ++ unit ∷ []
add_if false unit units = units

abbrev pub failed_of : Failure → Bool
failed_of none = false
failed_of (some e) = true

abbrev pub say_all : List String → List String → List String
say_all [] lines = lines
say_all (line ∷ rest) lines = say_all rest (line ∷ lines)

abbrev pub bound_of : Answer Bool → Bool
bound_of (answered b) = b
bound_of (errored e) = false

abbrev pub failure_of : Answer Bool → Failure
failure_of (answered b) = none
failure_of (errored e) = some e

module _ {W : Type 0} (deps : PrepareDeps W) where
  open deps use {read_units, decode, current, set_profile, ensure, daemon_reload}

  -- The end of `prepareUnit`: the drop-in.
  unfoldable pub ensure_bound : Policy → String → Bool → Logged W → Ready × Logged W
  ensure_bound policy target seeded (lines, w) =
      if policy.bind_closure
      then (let (answer, w') = ensure policy.unit policy.profile target w in
          (
            record { seeded = seeded; bound = bound_of answer; failure = failure_of answer },
            (lines, w'),
          ))
      else (record { seeded = seeded; bound = false; failure = none }, (lines, w))

  -- A profile that is not there.
  unfoldable pub seed : Policy → Logged W → Ready × Logged W
  unfolding ensure_bound
  seed policy (lines, w) =
      let (failure, w') = set_profile policy.profile policy.desired w in
      elim failure [
        | some e ↦ (record { seeded = false; bound = false; failure = some e }, (lines, w'))
        | none ↦ ensure_bound policy policy.desired true (
          (policy.unit +s ": created " +s policy.profile +s " on " +s policy.desired) ∷ lines,
          w',
        )
      ]

  -- `prepareUnit`.
  unfoldable pub prepare_unit : Policy → Logged W → Ready × Logged W
  unfolding seed ensure_bound
  prepare_unit policy (lines, w) =
      let (answer, w') = current policy.profile w in
      elim answer [
        | errored e ↦ (record { seeded = false; bound = false; failure = some e }, (lines, w'))
        | answered target ↦
            if str_eq target ""
            then seed policy (lines, w')
            else ensure_bound policy target false (lines, w')
      ]

  abbrev pub failed_lines : String → Failure → List String → List String
  failed_lines unit none lines = lines
  failed_lines unit (some e) lines = (unit +s ": could not prepare it (" +s e +s ")") ∷ lines

  abbrev pub noted : String → Ready → Prepared → Prepared
  noted unit ready prepared = record {
    seeded = add_if ready.seeded unit prepared.seeded;
    bound = add_if ready.bound unit prepared.bound;
    failed = add_if (failed_of ready.failure) unit prepared.failed;
  }

  -- One file's policy, over the units done so far.
  unfoldable pub prepare_file :
      Option Policy → List String → Prepared → Logged W → List String × Prepared × Logged W
  unfolding prepare_unit
  prepare_file none finished prepared s = (finished, prepared, s)
  prepare_file (some policy) finished prepared s =
      if contains finished policy.unit
      then (finished, prepared, s)
      else let (ready, (lines, w)) = prepare_unit policy s in
        (
          policy.unit ∷ finished,
          noted policy.unit ready prepared,
          (failed_lines policy.unit ready.failure lines, w),
        )

  -- The loop of `Prepare`.
  unfoldable pub prepare_all :
      List UnitFile → List String → Prepared → Logged W → Prepared × Logged W
  unfolding parse_policy prepare_file
  prepare_all [] finished prepared s = (prepared, s)
  prepare_all (file ∷ files) finished prepared (lines, w) =
      let (policy, warnings) = parse_policy (decode file.contents) file.name in
      let (finished', prepared', s) =
        prepare_file policy finished prepared (say_all warnings lines, w) in
      prepare_all files finished' prepared' s

  -- The daemon-reload at the end.
  unfoldable pub reload : Prepared × Logged W → Prepared × Logged W
  reload (prepared, (lines, w)) =
      if is_empty prepared.bound
      then (prepared, (lines, w))
      else let (failure, w') = daemon_reload w in
        elim failure [
          | none ↦ (prepared, (lines, w'))
          | some e ↦ (
            record prepared { failed = prepared.failed ++ prepared.bound },
            (
              ("Error: wrote the closure drop-ins but could not reload systemd (" +s e +s ")")
                  ∷ lines,
              w',
            ),
          )
        ]

  -- `Prepare`.
  unfoldable pub prepare : Logged W → Answer Prepared × Logged W
  unfolding prepare_all reload
  prepare (lines, w) =
      let (answer, w') = read_units w in
      elim answer [
        | errored e ↦ (errored e, (lines, w'))
        | answered files ↦
            let (prepared, s) = reload (prepare_all files [] nothing (lines, w')) in
            (answered prepared, s)
      ]

-- ===== src/Nix/Closure.antt =====
-- internal/nix/closure.go: the drop-in that binds a closure into a unit. The runner of nix-store and the
-- files are parameters, each a function on the world.
use tidewaiter.Common.{
  String, ◌+s◌, Bool, true, false, Option, none, some, List, [], ◌∷◌, map, if◌then◌else◌, str_eq,
  split, trim, sort, ◌==◌,
}
use tidewaiter.Source.{Answer, answered, errored}
use tidewaiter.Systemd.State.{Failure}
use tidewaiter.Nix.Paths.{join, dir_of, join_path}
use Prim.Native.Char.{code}

abbrev pub closure_drop_in : String
closure_drop_in = "50-tidewaiter-closure.conf"

abbrev pub default_runtime_dir : String
default_runtime_dir = "/run/systemd/system"

abbrev pub profile_line : String
profile_line = "# Profile: "

-- `slices.Compact`.
compact : List String → List String
compact [] = []
compact (s ∷ []) = s ∷ []
compact (s ∷ t ∷ ts) = let rest = compact (t ∷ ts) in if str_eq s t then rest else s ∷ rest

-- The lines that bind the profile's directory and the closure.
unfoldable pub bindings : String → List String → List String
unfolding compact
bindings profile closure =
    map (λ path. "BindReadOnlyPaths=" +s path) (dir_of profile ∷ compact (sort closure))

-- `ClosureDropInText`.
unfoldable pub closure_drop_in_text : String → List String → String
closure_drop_in_text profile closure =
    let lines =
      "# Written by tidewaiter before each restart: what the profile points at, and its closure."
      ∷ (profile_line +s profile)
      ∷ "[Service]"
      ∷ bindings profile closure in
    join "\n" lines +s "\n"

-- `strings.CutPrefix`: the prefix first.
unfoldable pub cut_prefix : String → String → Option String
cut_prefix String.[] s = some s
cut_prefix (String.◌∷◌ c p) String.[] = none
cut_prefix (String.◌∷◌ c p) (String.◌∷◌ d s) =
    let rest = cut_prefix p s in if code c == code d then rest else none

unfoldable pub profile_of : List String → String
unfolding cut_prefix
profile_of [] = ""
profile_of (line ∷ lines) =
    let rest = profile_of lines in
    elim (cut_prefix profile_line line) [ some profile ↦ profile | none ↦ rest ]

-- `DropInProfile`.
unfoldable pub drop_in_profile : String → String
unfolding profile_of split
drop_in_profile text = profile_of (split 10 text)

-- The lines of nix-store's output that are not blank.
abbrev pub paths_of : List String → List String
unfolding trim
paths_of [] = []
paths_of (line ∷ lines) =
    let rest = paths_of lines in if str_eq (trim line) "" then rest else trim line ∷ rest

-- What `os.ReadFile` gives.
pub data Read : Type 0 where
  contents : String → Read
  missing : Read
  unreadable : String → Read

-- What `atomicfile.Create` gives.
pub data Create : Type 0 where
  created : Create
  exists : Create
  refused : String → Create

-- `NixClosureBinder`, with the calls that it makes.
pub record Binder (W : Type 0) : Type 0 where
  pub runtime_dir : String
  pub nix_store : String
  -- `Runner.Run`, of a program and its arguments.
  pub run : String → List String → W → Answer String × W
  pub read_file : String → W → Read × W
  pub make_dir : String → W → Failure × W
  -- `atomicfile.Write` and `atomicfile.Create`, of a file and its text.
  pub write : String → String → W → Failure × W
  pub create : String → String → W → Create × W

abbrev pub or_else : String → String → String
or_else s default = if str_eq s "" then default else s

module _ {W : Type 0} (binder : Binder W) where
  -- `file`.
  unfoldable pub file : String → String
  file unit =
      join_path (or_else binder.runtime_dir default_runtime_dir) (unit +s ".d") closure_drop_in

  -- `requisites`.
  unfoldable pub requisites : String → W → Answer (List String) × W
  unfolding paths_of split
  requisites target w =
      let (answer, w') =
        binder.run (or_else binder.nix_store "nix-store") ("--query" ∷ "--requisites" ∷ target ∷ [])
          w in
      elim answer [
        | errored e ↦ (errored e, w')
        | answered out ↦ (answered (paths_of (split 10 out)), w')
      ]

  -- `text`.
  unfoldable pub text : String → String → String → W → Answer String × W
  unfolding requisites
  text path target profile w =
      let (answer, w') = requisites target w in
      elim answer [
        | errored e ↦ (errored e, w')
        | answered closure ↦
            let (failure, w'') = binder.make_dir (dir_of path) w' in
            elim failure [
              | some e ↦ (errored e, w'')
              | none ↦ (answered (closure_drop_in_text profile closure), w'')
            ]
      ]

  -- `Bind`.
  unfoldable pub bind : String → String → String → W → Failure × W
  unfolding text file
  bind unit profile target w =
      let (answer, w') = text (file unit) target profile w in
      elim answer [ errored e ↦ (some e, w') | answered s ↦ binder.write (file unit) s w' ]

  -- Over a drop-in for another profile.
  unfoldable pub replace : String → String → W → Answer Bool × W
  replace path s w =
      let (failure, w') = binder.write path s w in
      elim failure [ some e ↦ (errored e, w') | none ↦ (answered true, w') ]

  -- Where there is none: what is made in the meantime wins.
  unfoldable pub add_new : String → String → W → Answer Bool × W
  add_new path s w =
      let (made, w') = binder.create path s w in
      elim made [
        | created ↦ (answered true, w')
        | exists ↦ (answered false, w')
        | refused e ↦ (errored e, w')
      ]

  abbrev pub written : (String → W → Answer Bool × W) → Answer String × W → Answer Bool × W
  written put (answered s, w) = put s w
  written put (errored e, w) = (errored e, w)

  -- `Ensure`.
  unfoldable pub ensure : String → String → String → W → Answer Bool × W
  unfolding text file replace add_new drop_in_profile
  ensure unit profile target w =
      let (found, w') = binder.read_file (file unit) w in
      elim found [
        | unreadable e ↦ (errored e, w')
        | missing ↦ written (add_new (file unit)) (text (file unit) target profile w')
        | contents s ↦
            if str_eq (drop_in_profile s) profile
            then (answered false, w')
            else written (replace (file unit)) (text (file unit) target profile w')
      ]

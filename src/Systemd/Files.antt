-- ===== src/Systemd/Files.antt =====
-- `policies`, `load` and `List` of internal/systemd/source.go: which units there are, what is remembered
-- of them, and how they are listed.
use tidewaiter.Common.{
  String, ◌+s◌, Bool, true, false, ◌||◌, Option, none, some, List, [], ◌∷◌, ◌++◌, lookup, insert,
  if◌then◌else◌, str_eq, join, decimal,
}
use tidewaiter.Source.{answered, errored}
use tidewaiter.Systemd.Settings.{Policy, Document}
use tidewaiter.Systemd.Parse.{parse_policy}
use tidewaiter.Systemd.State.{
  UnitMemory, UnitFile, Kept, State, Deps, say, memory_of, Call, ◌>>=◌, ask,
}

-- `declared[policy.Unit]`, of the policies so far.
abbrev pub is_declared : String → List Policy → Bool
is_declared unit [] = false
is_declared unit (p ∷ ps) = str_eq p.unit unit || is_declared unit ps

abbrev pub say_all : List String → Kept → Kept
say_all [] k = k
say_all (line ∷ rest) k = say_all rest (say line k)

abbrev pub twice : String → Option Policy → List Policy → List String
twice file none found = []
twice file (some p) found =
    if is_declared p.unit found
    then (file +s ": " +s p.unit +s " is already declared by another file; skipping this one") ∷ []
    else []

-- Whether the file's contents are what was last warned of.
abbrev pub is_known : UnitFile → Kept → Bool
is_known file k = elim (lookup file.name k.files) [ none ↦ false | some t ↦ str_eq t file.contents ]

-- A file's warnings, once for its contents.
unfoldable pub warn_of : UnitFile → List String → Kept → Kept
warn_of file warnings k =
    if is_known file k
    then k
    else let told = say_all warnings k in
      record told { files = insert file.name file.contents told.files }

abbrev pub taken : Option Policy → List Policy → List Policy
taken none found = found
taken (some p) found = if is_declared p.unit found then found else found ++ p ∷ []

module _ (decode : String → Document) where
  -- The loop of `policies`, over the policies so far.
  unfoldable pub policies_of : List UnitFile → List Policy → Kept → List Policy × Kept
  unfolding parse_policy warn_of
  policies_of [] found k = (found, k)
  policies_of (file ∷ files) found k =
      let (policy, warnings) = parse_policy (decode file.contents) file.name in
      policies_of files (taken policy found)
        (warn_of file (warnings ++ twice file.name policy found) k)

module _ {W : Type 0} (deps : Deps W) where
  open deps use {read_units, decode, encode, current}

  -- `policies`.
  unfoldable pub policies : Call W (List Policy)
  unfolding policies_of
  policies = ask read_units >>= λ files (k, w).
      let (found, k') = policies_of decode files [] k in (answered found, (k', w))

  -- `load`.
  unfoldable pub load : Call W (Unit {0})
  load (k, w) =
      if k.loaded
      then (answered tt, (k, w))
      else let (answer, w') = deps.load w in
        elim answer [
          | errored e ↦ (errored ("reading the systemd source's state: " +s e), (k, w'))
          | answered memories ↦ (
            answered tt,
            (record k { loaded = true; memories = memories; saved = encode memories }, w'),
          )
        ]

  -- One line of `List`.
  abbrev pub status_of : Policy → UnitMemory → String → String
  status_of policy m target =
      if str_eq m.pinned policy.desired
      then "pinned out"
      else if str_eq target ""
      then "no profile yet"
      else if str_eq target policy.desired
      then "up to date"
      else "update waiting"

  abbrev pub line_of : Policy → UnitMemory → String → String
  line_of policy m target =
      policy.unit
      +s "  "
      +s policy.profile
      +s " -> "
      +s (if str_eq target "" then "nothing" else target)
      +s "  ["
      +s status_of policy m target
      +s "]  desired="
      +s policy.desired
      +s " detector="
      +s policy.detector
      +s " health="
      +s join "," policy.health
      +s " idle-samples="
      +s decimal policy.idle_samples

  unfoldable pub list_all : List Policy → State W → List String × State W
  list_all [] s = ([], s)
  list_all (p ∷ ps) (k, w) =
      let (answer, w') = current p.profile w in
      let target : String = elim answer [ answered t ↦ t | errored e ↦ "" ] in
      let (rest, s) = list_all ps (k, w') in (line_of p (memory_of p.unit k) target ∷ rest, s)

  -- `List`.
  unfoldable pub list : Call W (List String)
  unfolding load policies list_all
  list = (load >>= λ _. policies) >>= λ found s.
      let (lines, s') = list_all found s in (answered lines, s')

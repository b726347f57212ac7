-- ===== src/Systemd/Settings.antt =====
-- internal/systemd/units.go: the policy of a unit, from its file in the units directory. Reading a text as
-- JSON is a library's: a file arrives here as what was decoded.
use Prim.Native.Char.{code}
use tidewaiter.Common.{
  ℕ, String, ◌+s◌, Bool, true, false, not, ◌&&◌, ◌||◌, Option, none, some, List, [], ◌∷◌, Map,
  lookup, contains, join, trim, to_lower, atoi, Whole, plus, minus, decimal, leb, ltb, ◌==◌,
  if◌then◌else◌, str_eq,
}
use tidewaiter.Model.{PublishedPort}

abbrev pub health_names : List String
health_names = "systemd" ∷ "port-connect" ∷ "port-bound" ∷ "uptime" ∷ []

abbrev pub detector_names : List String
detector_names = "conntrack" ∷ "tcp" ∷ "none" ∷ []

pub record Policy : Type 0 where
  pub unit : String
  pub desired : String
  pub profile : String
  pub detector : String
  pub ports : List PublishedPort
  pub idle_samples : ℕ
  pub health : List String
  pub health_timeout_seconds : ℕ
  pub keep_generations : ℕ
  pub bind_closure : Bool

-- A JSON value as the code tells them apart; the last text of each is its JSON, for a warning.
pub data Item : Type 0 where
  word number other : String → Item

pub data Value : Type 0 where
  item : Item → Value
  boolean : Bool → String → Value
  list : List Item → String → Value

-- What decoding a file gives.
pub data Document : Type 0 where
  broken : String → Document
  trailing not_object : Document
  object : Map Value → Document

-- `display`.
abbrev pub display_item : Item → String
display_item (word s) = s
display_item (number s) = s
display_item (other s) = s

abbrev pub display : Value → String
display (item i) = display_item i
display (boolean b s) = s
display (list is s) = s

-- A setting that is a text, or "".
abbrev pub text_of : Option Value → String
text_of (some (item (word s))) = s
text_of _ = ""

abbrev pub required : String → Map Value → String
required name fields = trim (text_of (lookup name fields))

-- `\.[a-z]+$`.
abbrev pub all_lower : String → Bool
all_lower String.[] = true
all_lower (String.◌∷◌ c s) = leb 97 (code c) && leb (code c) 122 && all_lower s

unfoldable pub has_suffix : String → Bool
has_suffix String.[] = false
has_suffix (String.◌∷◌ c s) = (code c == 46 && not (str_eq s "") && all_lower s) || has_suffix s

abbrev pub full_name : String → String
full_name unit = if has_suffix unit then unit else unit +s ".service"

-- A setting's value, with what it warns of.
abbrev pub Read : Type 0 → Type 0
Read A = A × List String

abbrev pub detector_named : String → Read String
detector_named name =
    let term = to_lower (trim name) in
    if contains detector_names term then (term, []) else (
      "conntrack",
      ("detector: '"
            +s name
            +s "' is not one of "
            +s join ", " detector_names
            +s "; using conntrack")
          ∷ [],
    )

abbrev pub read_detector : Option Value → Read String
read_detector none = ("conntrack", [])
read_detector (some (item (word name))) = detector_named name
read_detector (some v) =
    ("conntrack", ("detector: '" +s display v +s "' is not a string; ignoring it") ∷ [])

abbrev pub read_bind_closure : Option Value → Read Bool
read_bind_closure none = (false, [])
read_bind_closure (some (boolean b s)) = (b, [])
read_bind_closure (some v) =
    (false, ("bindClosure: '" +s display v +s "' is not true or false; using false") ∷ [])

abbrev pub shown : Whole → String
shown (plus n) = decimal n
shown (minus n) = "-" +s decimal n

abbrev pub too_small : String → ℕ → ℕ → Whole → String
too_small name fallback least n =
    if least == 1
    then name +s ": '" +s shown n +s "' must be at least 1; using " +s decimal fallback
    else name +s ": '" +s shown n +s "' must not be negative; using " +s decimal fallback

abbrev pub at_least : String → ℕ → ℕ → Whole → Read ℕ
at_least name fallback least (plus n) =
    if ltb n least then (fallback, too_small name fallback least (plus n) ∷ []) else (n, [])
at_least name fallback least (minus n) = (fallback, too_small name fallback least (minus n) ∷ [])

abbrev pub not_whole : String → ℕ → Value → Read ℕ
not_whole name fallback v =
    (fallback, (name +s ": '" +s display v +s "' is not a whole number; ignoring it") ∷ [])

abbrev pub read_number : String → ℕ → ℕ → String → Read ℕ
read_number name fallback least s = elim (atoi s) [
  | none ↦ not_whole name fallback (item (number s))
  | some n ↦ at_least name fallback least n
]

-- `integer`.
unfoldable pub integer : String → ℕ → ℕ → Option Value → Read ℕ
integer name fallback least none = (fallback, [])
integer name fallback least (some (item (number s))) = read_number name fallback least s
integer name fallback least (some v) = not_whole name fallback v

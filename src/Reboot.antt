-- ===== src/Reboot.antt =====
-- internal/reboot/reboot.go: the daily window, the boot check of NixOS, and the verdict on a reboot.
-- A window's text is its bytes. The filesystem is a parameter: where a path finally leads.
pub mod Times
pub mod Verdicts
pub mod Boot
mod Examples
use tidewaiter.Common.{
  ℕ, suc, ◌+◌, ◌-◌, ◌*◌, String, ◌+s◌, Bool, true, false, ◌&&◌, ◌||◌, not, Option, none, some, List,
  [], ◌∷◌, ltb, leb, ◌==◌, if◌then◌else◌, is_empty, join, sort, str_eq, split_at,
}

-- Minutes since midnight.
pub record Window : Type 0 where
  pub start : ℕ
  pub end : ℕ

-- Why a text is no window; the messages quote the text.
pub data Refusal : Type 0 where
  not_a_window empty_window : Refusal

pub data Parsed : Type 0 where
  window : Window → Parsed
  refused : Refusal → Parsed

abbrev pub between : ℕ → ℕ → ℕ → Bool
between lo hi c = leb lo c && leb c hi

-- `([01][0-9]|2[0-3])`.
unfoldable pub is_hour : ℕ → ℕ → Bool
is_hour a b = between b'0' b'1' a && between b'0' b'9' b || a == b'2' && between b'0' b'3' b

-- `([0-5][0-9])`.
unfoldable pub is_minute : ℕ → ℕ → Bool
is_minute a b = between b'0' b'5' a && between b'0' b'9' b

-- `strconv.Atoi` of two digits.
unfoldable pub two_digits : ℕ → ℕ → ℕ
two_digits a b = (a - b'0') * 10 + (b - b'0')

-- `time == "24:00"`.
unfoldable pub is_midnight : ℕ → ℕ → ℕ → ℕ → ℕ → Bool
is_midnight a b c d e = a == b'2' && b == b'4' && c == b':' && d == b'0' && e == b'0'

-- The `minutes` of `ParseWindow`: a time of day, or 24:00 as an end.
unfoldable pub minutes : Bool → List ℕ → Option ℕ
minutes is_end (a ∷ b ∷ c ∷ d ∷ e ∷ []) =
    if is_end && is_midnight a b c d e
    then some 1440
    else if is_hour a b && c == b':' && is_minute d e
    then some (two_digits a b * 60 + two_digits d e)
    else none
minutes is_end _ = none

parse_times : Option ℕ → Option ℕ → Parsed
parse_times none _ = refused not_a_window
parse_times (some s) none = refused not_a_window
parse_times (some s) (some e) =
    if s == e then refused empty_window else window (record { start = s; end = e })

parse_parts : List (List ℕ) → Parsed
unfolding parse_times
parse_parts (a ∷ b ∷ []) = parse_times (minutes false a) (minutes true b)
parse_parts _ = refused not_a_window

-- `ParseWindow`.
unfoldable pub parse_window : List ℕ → Parsed
unfolding parse_parts split_at
parse_window text = parse_parts (split_at b'-' text)

-- `Window.Contains` at an hour and a minute of the day.
unfoldable pub contains_time : Window → ℕ → ℕ → Bool
contains_time w hour minute =
    let now = hour * 60 + minute in
    if ltb w.start w.end then leb w.start now && ltb now w.end else leb w.start now || ltb now w.end

-- Where `filepath.EvalSymlinks` ends: at a path, at nothing (an `ErrNotExist`), or with another
-- error; each error with its text.
pub data Link : Type 0 where
  leads : String → Link
  nowhere : String → Link
  broken : String → Link

-- What `Needed` says: why a reboot is needed, "" where it is not, or that it cannot tell.
pub data Need : Type 0 where
  tells : String → Need
  cannot_tell : String → Need

pub record NixOs : Type 0 where
  pub booted : String
  pub current : String

abbrev pub boot_files : List String
boot_files = "initrd" ∷ "kernel" ∷ "kernel-modules" ∷ []

-- A file of a system: `filepath.Join`, of a clean directory and a plain name.
abbrev pub file_of : String → String → String
file_of dir name = dir +s "/" +s name

-- What the second loop of `Needed` finds: the files that differ, or the first error.
pub data Changes : Type 0 where
  changed : List String → Changes
  unread : String → Changes

abbrev pub note_change : String → String → String → Changes → Changes
note_change name was is (unread e) = unread e
note_change name was is (changed names) =
    if str_eq was is then changed names else changed (name ∷ names)

abbrev pub said : Changes → Need
said (unread e) = cannot_tell e
said (changed []) = tells ""
said (changed (name ∷ names)) = tells (join ", " (name ∷ names) +s " changed since boot")

-- `resolved`: where a path finally leads, "" where it leads nowhere, or an error.
pub data Resolved : Type 0 where
  target : String → Resolved
  failed : String → Resolved

-- One file of the two systems.
abbrev pub compare_file : String → Resolved → Resolved → Changes → Changes
compare_file name (failed e) is later = unread e
compare_file name (target was) (failed e) later = unread e
compare_file name (target was) (target is) later = note_change name was is later

abbrev pub cannot_read : String → String → String
cannot_read system e = "cannot read " +s system +s " (" +s e +s ")"

module _ (eval_symlinks : String → Link) where
  abbrev pub resolved : String → Resolved
  resolved path = elim (eval_symlinks path) [
    | leads t ↦ target t
    | nowhere e ↦ target ""
    | broken e ↦ failed e
  ]

  abbrev pub changes : NixOs → List String → Changes
  changes n [] = changed []
  changes n (name ∷ names) =
      compare_file name (resolved (file_of n.booted name)) (resolved (file_of n.current name))
        (changes n names)

  -- The first loop of `Needed`, for one system.
  abbrev pub unreadable : String → Option String
  unreadable system = elim (eval_symlinks system) [
    | leads t ↦ none
    | nowhere e ↦ some (cannot_read system e)
    | broken e ↦ some (cannot_read system e)
  ]

  -- `NixOS.Needed`.
  unfoldable pub needed : NixOs → Need
  needed n = elim (unreadable n.booted) [
    | some e ↦ cannot_tell e
    | none ↦ elim (unreadable n.current) [
      | some e ↦ cannot_tell e
      | none ↦ said (changes n boot_files)
    ]
  ]

pub record Inputs : Type 0 where
  pub needed : String
  pub in_window : Bool
  pub busy : List String
  pub unsettled : List String
  pub swapping : List String

pub data Kind : Type 0 where
  not_needed wait reboot : Kind

pub record Verdict : Type 0 where
  pub kind : Kind
  pub reason : String

abbrev pub waits : String → Verdict
waits why = record { kind = wait; reason = why }

-- The `list` of `Decide`.
abbrev pub listed : List String → String
listed names = join ", " (sort names)

-- `Decide`.
unfoldable pub decide : Inputs → Verdict
decide input =
    if str_eq input.needed ""
    then record { kind = not_needed; reason = "" }
    else if not input.in_window
    then waits "waiting for the window"
    else if not (is_empty input.swapping)
    then waits ("waiting: swapping " +s listed input.swapping)
    else if not (is_empty input.busy)
    then waits ("waiting: " +s listed input.busy +s " in use")
    else if not (is_empty input.unsettled)
    then waits ("waiting: " +s listed input.unsettled +s " not idle for long enough yet")
    else record { kind = reboot; reason = "" }

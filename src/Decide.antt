-- ===== src/Decide.antt =====
-- internal/decide/decide.go: the update decision, made purely. A digest, or a unit's store path, is
-- an opaque text that is only compared; "" is none. Go's ints count samples, and are naturals here.
pub mod Policy
mod Examples
use tidewaiter.Common.{
  ℕ, String, ◌+s◌, ◌≡◌, refl, Bool, true, false, not, ◌&&◌, ltb, if◌then◌else◌, str_eq, decimal,
}

pub record Inputs : Type 0 where
  pub idle_samples : ℕ
  pub current : String
  pub desired : String
  pub in_use : Bool
  pub idle_streak : ℕ

-- What is carried between passes, of which the decision reads only the pin.
pub record State : Type 0 where
  pub pinned : String

pub data Kind : Type 0 where
  keep update defer pinned : Kind

-- Go's zero `From` and `To` are "".
pub record Action : Type 0 where
  pub kind : Kind
  pub from : String
  pub to : String
  pub reason : String

pub record Words : Type 0 where
  pub pinned : String
  pub keep : String
  pub busy : String
  pub update : String

abbrev pub image_words : Words
image_words = record {
  pinned =
      "a previous update to this image failed its health check; pinned out until the tag moves on";
  keep = "already on the latest image";
  busy = "the tide is in - the container has live flows";
  update = "a newer image is available";
}

abbrev pub unit_words : Words
unit_words = record {
  pinned =
      "a previous update to this version failed its health check; pinned out until the desired version moves on";
  keep = "the profile is already on the desired version";
  busy = "the tide is in - the unit has live flows";
  update = "the desired version differs from the profile's";
}

-- An action that names no versions.
abbrev pub plain : Kind → String → Action
plain k why = record { kind = k; from = ""; to = ""; reason = why }

-- `state.Pinned != "" && state.Pinned == in.Desired`.
abbrev pub is_pinned : State → String → Bool
is_pinned state desired = not (str_eq state.pinned "") && str_eq state.pinned desired

unfoldable pub decide : Inputs → State → Words → Action
decide input state words =
    if is_pinned state input.desired
    then plain pinned words.pinned
    else if str_eq input.desired input.current
    then plain keep words.keep
    else if input.in_use
    then plain defer words.busy
    else if ltb input.idle_streak input.idle_samples
    then plain defer (
        "idle "
        +s decimal input.idle_streak
        +s "/"
        +s decimal input.idle_samples
        +s " samples - waiting for the debounce window")
    else record {
      kind = update;
      from = input.current;
      to = input.desired;
      reason = "idle for " +s decimal input.idle_streak +s " samples and " +s words.update;
    }

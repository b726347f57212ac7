-- ===== src/Common/Words.antt =====
-- Texts as the code reads settings: `strings.TrimSpace`, `strings.ToLower`, `strings.Split`,
-- `strings.HasPrefix`, `strings.Contains` of one character, and `strconv.Atoi`.
use Prim.Native.Char.{Char, code}
use Prim.Native.Nat.{ℕ, ◌+◌, ◌-◌, ◌*◌, ◌^◌}
use Prim.Native.String.{String, char_at}
use mathlib.Core.Path.{◌≡◌, refl}
use mathlib.Core.Bool.{Bool, true, false, ◌&&◌, ◌||◌}
use mathlib.Core.Option.{Option, none, some}
use mathlib.Core.List.{List, [], ◌∷◌}
use text.Mathlib.Text.{◌==◌ as str_eq}
use tidewaiter.Common.Tests.{ltb, leb, ◌==◌, if◌then◌else◌}

-- Unicode's white space.
unfoldable pub is_space : ℕ → Bool
is_space c =
    leb 9 c && leb c 13
    || c == 32
    || c == 133
    || c == 160
    || c == 5760
    || leb 8192 c && leb c 8202
    || c == 8232
    || c == 8233
    || c == 8239
    || c == 8287
    || c == 12288

unfoldable pub trim_left : String → String
unfolding is_space
trim_left String.[] = String.[]
trim_left (String.◌∷◌ c s) =
    let rest = trim_left s in if is_space (code c) then rest else String.◌∷◌ c s

unfoldable pub trim_right : String → String
unfolding is_space
trim_right String.[] = String.[]
trim_right (String.◌∷◌ c s) =
    let rest = trim_right s in
    if is_space (code c) && str_eq rest "" then String.[] else String.◌∷◌ c rest

-- `strings.TrimSpace`.
unfoldable pub trim : String → String
unfolding trim_left trim_right
trim s = trim_right (trim_left s)

-- The lower-case letter of ASCII that a character becomes, if it becomes one: besides ASCII's own upper
-- case, that is the dotted capital I and the Kelvin sign. Other letters are left as they are, which
-- makes no difference to a comparison with a name of ASCII letters.
unfoldable pub lower : Char → Char
lower c =
    if leb 65 (code c) && leb (code c) 90
    then char_at "abcdefghijklmnopqrstuvwxyz" (code c - 65)
    else if code c == 304
    then "i"
    else if code c == 8490
    then "k"
    else c

unfoldable pub to_lower : String → String
unfolding lower
to_lower String.[] = String.[]
to_lower (String.◌∷◌ c s) = String.◌∷◌ (lower c) (to_lower s)

-- `strings.Split` at one character.
unfoldable pub split : ℕ → String → List String
split sep String.[] = String.[] ∷ []
split sep (String.◌∷◌ c s) = if code c == sep then String.[] ∷ split sep s else elim (split sep s) [
  | [] ↦ (String.◌∷◌ c String.[]) ∷ []
  | part ∷ parts ↦ (String.◌∷◌ c part) ∷ parts
]

-- Whether a text has the character.
unfoldable pub has_char : ℕ → String → Bool
has_char n String.[] = false
has_char n (String.◌∷◌ c s) = code c == n || has_char n s

abbrev pub is_digit : ℕ → Bool
is_digit c = leb 48 c && leb c 57

-- The number that a text of digits spells, over what was read; `none` for anything else.
unfoldable pub digits_from : ℕ → String → Option ℕ
digits_from n String.[] = some n
digits_from n (String.◌∷◌ c s) =
    let rest = digits_from (n * 10 + (code c - 48)) s in if is_digit (code c) then rest else none

unfoldable pub digits : String → Option ℕ
unfolding digits_from
digits String.[] = none
digits (String.◌∷◌ c s) = digits_from 0 (String.◌∷◌ c s)

-- A whole number: `minus n` is -n.
pub data Whole : Type 0 where
  plus minus : ℕ → Whole

abbrev pub signed : Bool → Option ℕ → Option Whole
signed negative none = none
signed true (some n) = if leb n (2 ^ 63) then some (if n == 0 then plus 0 else minus n) else none
signed false (some n) = if ltb n (2 ^ 63) then some (plus n) else none

-- `strconv.Atoi`, of 64 bits; `none` is its error.
unfoldable pub atoi : String → Option Whole
unfolding digits
atoi String.[] = none
atoi (String.◌∷◌ c s) =
    if code c == 45
    then signed true (digits s)
    else if code c == 43
    then signed false (digits s)
    else signed false (digits (String.◌∷◌ c s))

trim_example : trim "  a b\n" ≡ "a b"
unfolding trim
trim_example = refl

to_lower_example : to_lower "Port-Connect" ≡ "port-connect"
unfolding to_lower
to_lower_example = refl

split_example : split 44 "a,,b" ≡ "a" ∷ "" ∷ "b" ∷ []
unfolding split
split_example = refl

atoi_example : atoi "-12" ≡ some (minus 12)
unfolding atoi
atoi_example = refl

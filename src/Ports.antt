-- ===== src/Ports.antt =====
-- The grammar of a port, `25565` or `19132/udp`, which internal/docker/labels.go and
-- internal/systemd/units.go each have.

use tidewaiter.Common.{
  ℕ, suc, String, ◌≡◌, refl, Option, none, some, List, [], ◌∷◌, split, to_lower, digits, leb,
  if◌then◌else◌, str_eq, ◌&&◌,
}
use tidewaiter.Model.{Protocol, tcp, udp}

abbrev pub text_length : String → ℕ
text_length String.[] = 0
text_length (String.◌∷◌ c s) = suc (text_length s)

-- What a text is as a port.
pub data Term : Type 0 where
  unrecognised out_of_range : Term
  port : ℕ → Option Protocol → Term

abbrev pub in_range : ℕ → Option Protocol → Term
in_range n protocol = if leb 1 n && leb n 65535 then port n protocol else out_of_range

-- `\d{1,5}`.
abbrev pub short_number : String → Option ℕ
short_number s = if leb (text_length s) 5 then digits s else none

-- `tcp|udp`, whatever the case of the letters.
abbrev pub protocol_named : String → Option Protocol
protocol_named s =
    if str_eq (to_lower s) "tcp"
    then some tcp
    else if str_eq (to_lower s) "udp"
    then some udp
    else none

abbrev pub term_of : List String → Term
term_of (number ∷ []) = elim (short_number number) [
  | none ↦ unrecognised
  | some n ↦ in_range n none
]
term_of (number ∷ name ∷ []) = elim (short_number number) [
  | none ↦ unrecognised
  | some n ↦ elim (protocol_named name) [ none ↦ unrecognised | some p ↦ in_range n (some p) ]
]
term_of _ = unrecognised

-- The regular expression `^(\d{1,5})(?:/(tcp|udp))?$` of both, and the range of its number.
unfoldable pub parse_port : String → Term
unfolding split to_lower digits
parse_port text = term_of (split 47 text)

parse_port_udp : parse_port "19132/UDP" ≡ port 19132 (some udp)
unfolding parse_port
parse_port_udp = refl

parse_port_big : parse_port "65536" ≡ out_of_range
unfolding parse_port
parse_port_big = refl

parse_port_long : parse_port "000080" ≡ unrecognised
unfolding parse_port
parse_port_long = refl

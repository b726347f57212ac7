-- ===== src/Systemd/Valid/Declared.antt =====
-- The ports that internal/systemd/units.go reads: from 1 to 65535, and the same on both sides.
use tidewaiter.Common.{
  All-snoc, ℕ, split, ◌≤◌, String, ◌≡◌, refl, inl, inr, Option, none, some, List, [], ◌∷◌, ◌++◌,
  All, arith, Bool-cases, Option-cases, trim,
}
use tidewaiter.Model.{Protocol, PublishedPort}
use tidewaiter.Ports.{
  Term, unrecognised, out_of_range, port, parse_port, term_of, in_range, short_number,
  protocol_named,
}
use tidewaiter.Systemd.Settings.{Item, Value, item, boolean, list, display_item}
use tidewaiter.Systemd.Parse.{
  host_port_of, declare, declare_term, declare_all, parse_ports, protocols_of, declared,
}

abbrev pub IsPort : PublishedPort → Type 0
IsPort p = (1 ≤ p.host_port) × (p.host_port ≤ 65535) × (p.container_port ≡ p.host_port)

-- A number that a port may be.
abbrev InRange : ℕ → Type 0
InRange n = (1 ≤ n) × (n ≤ 65535)

in_range-InRange : (m n : ℕ) (p q : Option Protocol) → in_range m p ≡ port n q → InRange n
in_range-InRange m n p q h = ground arith

term_of-InRange :
    (parts : List String) (n : ℕ) (q : Option Protocol) → term_of parts ≡ port n q → InRange n
term_of-InRange [] n q h = cc
term_of-InRange (first ∷ []) n q h = elim (Option-cases (short_number first)) [
  | inl e ↦ absurd (ground arith)
  | inr (m, e) ↦ in_range-InRange m n none q (rw (e, term_of) at h)
]
term_of-InRange (first ∷ name ∷ []) n q h = elim (Option-cases (short_number first)) [
  | inl e ↦ absurd (ground arith)
  | inr (m, e) ↦ elim (Option-cases (protocol_named name)) [
    | inl f ↦ absurd (ground arith)
    | inr (p, f) ↦ in_range-InRange m n (some p) q (rw (e, f, term_of) at h)
  ]
]
term_of-InRange (a ∷ b ∷ c ∷ rest) n q h = cc

declare-IsPort :
    (n : ℕ) (protocols : List Protocol) (ports : List PublishedPort)
    → InRange n
    → All IsPort ports
    → All IsPort (declare n protocols ports)
declare-IsPort n [] ports r h = h
declare-IsPort n (protocol ∷ rest) ports r h =
    elim (Bool-cases (declared (host_port_of n protocol) ports)) [
      | inl y ↦ rw (y, declare) (declare-IsPort n rest ports r h)
      | inr y ↦
          let new = host_port_of n protocol in
          rw (y, declare)
            (declare-IsPort n rest (ports ++ new ∷ []) r
              (All-snoc IsPort ports new h (r.0, r.1, refl)))
    ]

declare_term-IsPort :
    (text : String) (term : Term) (ports : List PublishedPort)
    → ((n : ℕ) (q : Option Protocol) → term ≡ port n q → InRange n)
    → All IsPort ports
    → All IsPort (declare_term text term ports).0
declare_term-IsPort text unrecognised ports r h = h
declare_term-IsPort text out_of_range ports r h = h
declare_term-IsPort text (port n q) ports r h =
    declare-IsPort n (protocols_of q) ports (r n q refl) h

declare_all-IsPort :
    (items : List Item) (ports : List PublishedPort)
    → All IsPort ports
    → All IsPort (declare_all items ports).0
unfolding declare_all parse_port
declare_all-IsPort [] ports h = h
declare_all-IsPort (raw ∷ rest) ports h =
    let text = trim (display_item raw) in
    declare_all-IsPort rest (declare_term text (parse_port text) ports).0
      (declare_term-IsPort text (parse_port text) ports (term_of-InRange (split 47 text)) h)

pub parse_ports-IsPort : (v : Option Value) → All IsPort (parse_ports v).0
parse_ports-IsPort none = tt
parse_ports-IsPort (some (list items s)) = declare_all-IsPort items [] tt
parse_ports-IsPort (some (item i)) = tt
parse_ports-IsPort (some (boolean b s)) = tt

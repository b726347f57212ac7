-- ===== src/Systemd/Distinct.antt =====
-- The policies of internal/systemd/source.go: one for a unit.
use tidewaiter.Common.{
  String, ◌≡◌, ◌↔◌, ◌⊎◌, inl, inr, true, Option, none, some, List, [], ◌∷◌, ◌++◌, map, Elem, eq_iff,
  arith, Bool-cases,
}
use tidewaiter.Source.{Answer-cases, answered}
use tidewaiter.Systemd.Settings.{Policy, Document}
use tidewaiter.Systemd.State.{UnitFile, Kept, State, Deps, ◌>>=◌}
use tidewaiter.Systemd.Parse.{parse_policy}
use tidewaiter.Systemd.Files.{is_declared, taken, policies_of, policies, load}

abbrev pub units_of : List Policy → List String
units_of found = map (λ p. p.unit) found

-- No text twice.
abbrev pub Distinct : List String → Type 0
Distinct [] = Unit {0}
Distinct (x ∷ xs) = (¬ Elem x xs) × Distinct xs

is_declared_iff :
    (unit : String) (found : List Policy)
    → (is_declared unit found ≡ true) ↔ Elem unit (units_of found)
is_declared_iff unit [] = ground arith
is_declared_iff unit (p ∷ ps) = ground (arith, eq_iff p.unit unit, is_declared_iff unit ps)

Elem-snoc :
    (unit : String) (xs : List Policy) (x : Policy)
    → Elem unit (units_of (xs ++ x ∷ []))
    → (Elem unit (units_of xs) ⊎ (unit ≡ x.unit))
Elem-snoc unit [] x h = ground arith
Elem-snoc unit (y ∷ ys) x h = ground (arith, Elem-snoc unit ys x)

Distinct-snoc :
    (xs : List Policy) (x : Policy)
    → Distinct (units_of xs)
    → ¬ Elem x.unit (units_of xs)
    → Distinct (units_of (xs ++ x ∷ []))
Distinct-snoc [] x d h = ground arith
Distinct-snoc (y ∷ ys) x d h = ground (arith, Elem-snoc y.unit ys x, Distinct-snoc ys x d.1)

taken-Distinct :
    (policy : Option Policy) (found : List Policy)
    → Distinct (units_of found)
    → Distinct (units_of (taken policy found))
taken-Distinct none found d = d
taken-Distinct (some p) found d = elim (Bool-cases (is_declared p.unit found)) [
  | inl y ↦ rw y d
  | inr n ↦ rw n (Distinct-snoc found p d (ground (arith, is_declared_iff p.unit found)))
]

policies_of-Distinct :
    (decode : String → Document) (files : List UnitFile) (found : List Policy) (k : Kept)
    → Distinct (units_of found)
    → Distinct (units_of (policies_of decode files found k).0)
unfolding policies_of
policies_of-Distinct decode [] found k d = d
policies_of-Distinct decode (file ∷ files) found k d =
    policies_of-Distinct decode files _ _
      (taken-Distinct (parse_policy (decode file.contents) file.name).0 found d)

module _ {W : Type 0} (deps : Deps W) where
  read-Distinct :
      (s : State W) (found : List Policy)
      → (policies deps s).0 ≡ answered found
      → Distinct (units_of found)
  unfolding policies
  read-Distinct (k, w) found h = elim (Answer-cases (deps.read_units w).0) [
    | inl (files, e) ↦ let d = policies_of-Distinct deps.decode files [] k tt in ground arith
    | inr (why, e) ↦ absurd (ground arith)
  ]

  -- No unit has two policies, whatever its files declare.
  pub policies-Distinct :
      (s : State W) (found : List Policy)
      → ((load deps >>= λ _. policies deps) s).0 ≡ answered found
      → Distinct (units_of found)
  policies-Distinct s found h =
      let loaded = load deps s in
      elim (Answer-cases loaded.0) [
        | inl (_, e) ↦ read-Distinct loaded.1 found (rw (e, ◌>>=◌) at h)
        | inr (why, e) ↦ absurd (ground arith)
      ]

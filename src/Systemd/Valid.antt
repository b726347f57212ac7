-- ===== src/Systemd/Valid.antt =====
-- What a policy that internal/systemd/units.go reads satisfies.
pub mod Declared
use tidewaiter.Common.{
  All-snoc, All-Elem, ℕ, Whole, plus, minus, atoi, split, ◌+s◌, ◌≤◌, String, ◌≡◌, ◌≢◌, refl, subst,
  inl, inr, true, Option, none, some, List, [], ◌∷◌, ◌++◌, Map, lookup, All, Elem, contains,
  contains_iff, str_eq, eq_iff, arith, Bool-cases, Option-cases, trim, to_lower,
}
use tidewaiter.Systemd.Valid.Declared.{IsPort, parse_ports-IsPort}
use text.Mathlib.Text.{starts_with}
use text.Mathlib.TextLemmas.{cons-append, append-eq-nil_iff}
use mathlib.Core.Option.{some-injective}
use tidewaiter.Model.{Protocol, PublishedPort}
use tidewaiter.Ports.{
  Term, unrecognised, out_of_range, port, parse_port, term_of, in_range, short_number,
  protocol_named,
}
use tidewaiter.Systemd.Settings.{
  health_names, detector_names, Policy, Item, Value, word, number, other, item, boolean, list,
  Document, broken, trailing, not_object, object, display_item, Read, required, full_name,
  has_suffix, read_detector, detector_named, integer, read_number, at_least,
}
use tidewaiter.Systemd.Parse.{
  host_port_of, declare, declare_term, declare_all, parse_ports, choose, choose_all, parse_health,
  or_default, missing, not_absolute, parse_settings, parse_object, parse_policy, protocols_of,
  declared,
}

-- A setting is a path from the root.
abbrev pub IsAbsolute : String → Type 0
IsAbsolute path = starts_with path "/" ≡ true

pub record IsValid (policy : Policy) : Type 0 where
  pub named : has_suffix policy.unit ≡ true
  pub desired : IsAbsolute policy.desired
  pub profile : IsAbsolute policy.profile
  pub detector : Elem policy.detector detector_names
  pub ports : All IsPort policy.ports
  pub gated : policy.health ≢ []
  pub health : All (λ name. Elem name health_names) policy.health
  pub samples : 1 ≤ policy.idle_samples
  pub timeout : 1 ≤ policy.health_timeout_seconds

at_least-bound :
    (name : String) (fallback least : ℕ) (n : Whole)
    → least ≤ fallback
    → least ≤ (at_least name fallback least n).0
at_least-bound name fallback least (plus n) h = ground arith
at_least-bound name fallback least (minus n) h = h

read_number-bound :
    (name s : String) (fallback least : ℕ)
    → least ≤ fallback
    → least ≤ (read_number name fallback least s).0
read_number-bound name s fallback least h = elim (Option-cases (atoi s)) [
  | inl e ↦ rw (e, read_number) h
  | inr (n, e) ↦ rw (e, read_number) (at_least-bound name fallback least n h)
]

integer-bound :
    (name : String) (fallback least : ℕ) (v : Option Value)
    → least ≤ fallback
    → least ≤ (integer name fallback least v).0
unfolding integer
integer-bound name fallback least none h = h
integer-bound name fallback least (some (item (number s))) h =
    read_number-bound name s fallback least h
integer-bound name fallback least (some (item (word s))) h = h
integer-bound name fallback least (some (item (other s))) h = h
integer-bound name fallback least (some (boolean b s)) h = h
integer-bound name fallback least (some (list is s)) h = h

detector_named-known : (name : String) → Elem (detector_named name).0 detector_names
detector_named-known name =
    let term = to_lower (trim name) in
    elim (Bool-cases (contains detector_names term)) [
      | inl y ↦ rw (y, detector_named) (ground (arith, contains_iff detector_names term))
      | inr n ↦ rw (n, detector_named) (inl refl)
    ]

detector-known : (v : Option Value) → Elem (read_detector v).0 detector_names
detector-known none = inl refl
detector-known (some (item (word s))) = detector_named-known s
detector-known (some (item (number s))) = inl refl
detector-known (some (item (other s))) = inl refl
detector-known (some (boolean b s)) = inl refl
detector-known (some (list is s)) = inl refl

-- Names of checks that there are.
abbrev Known : List String → Type 0
Known names = All (λ name. Elem name health_names) names

choose-Known :
    (raw term : String) (chosen : List String) → Known chosen → Known (choose raw term chosen).0
choose-Known raw term chosen h = elim (Bool-cases (str_eq term "docker")) [
  | inl d ↦ rw (d, choose) h
  | inr d ↦
      rw (d, choose)
        (elim (Bool-cases (contains health_names term)) [
          | inr n ↦ rw (n, choose) h
          | inl y ↦
              let known : Elem term health_names = ground (arith, contains_iff health_names term) in
              rw (y, choose)
                (elim (Bool-cases (contains chosen term)) [
                  | inl c ↦ rw (c, choose) h
                  | inr c ↦
                      rw (c, choose) (All-snoc (λ name. Elem name health_names) chosen term h known)
                ])
        ])
]

choose_all-Known :
    (items : List Item) (chosen : List String) → Known chosen → Known (choose_all items chosen).0
unfolding choose_all
choose_all-Known [] chosen h = h
choose_all-Known (raw ∷ rest) chosen h =
    let term = to_lower (trim (display_item raw)) in
    choose_all-Known rest (choose (display_item raw) term chosen).0
      (choose-Known (display_item raw) term chosen h)

or_default-Known :
    (r : Read (List String)) → Known r.0 → Known (or_default r).0 × ((or_default r).0 ≢ [])
or_default-Known ([], said) h = (All-Elem health_names, λ e. cc)
or_default-Known (name ∷ names, said) h = (h, λ e. cc)

health-Known : (v : Option Value) → Known (parse_health v).0 × ((parse_health v).0 ≢ [])
health-Known none = (All-Elem health_names, λ e. cc)
health-Known (some (list items s)) =
    or_default-Known (choose_all items []) (choose_all-Known items [] tt)
health-Known (some (item i)) = (All-Elem health_names, λ e. cc)
health-Known (some (boolean b s)) = (All-Elem health_names, λ e. cc)

service-has_suffix : (unit : String) → has_suffix (unit +s ".service") ≡ true
unfolding has_suffix
service-has_suffix String.[] = refl
service-has_suffix (String.◌∷◌ c s) =
    rw (cons-append c s ".service") (ground (arith, service-has_suffix s))

full_name-has_suffix : (unit : String) → has_suffix (full_name unit) ≡ true
full_name-has_suffix unit = elim (Bool-cases (has_suffix unit)) [
  | inl y ↦ rw (y, full_name) y
  | inr n ↦ rw (n, full_name) (service-has_suffix unit)
]

-- A quoted text is not empty.
quoted : (s : String) → "'" +s s ≢ ""
quoted s h =
    let (bare, _) = (append-eq-nil_iff {p = "'"} {q = s}).0 h in
    let same : str_eq "'" "" ≡ true = (eq_iff "'" "").1 bare in absurd (ground arith)

not_absolute-IsAbsolute :
    (names : List String) (fields : Map Value)
    → not_absolute names fields ≡ ""
    → All (λ name. IsAbsolute (required name fields)) names
not_absolute-IsAbsolute [] fields h = tt
not_absolute-IsAbsolute (name ∷ names) fields h =
    elim (Bool-cases (starts_with (required name fields) "/")) [
      | inl y ↦ (y, not_absolute-IsAbsolute names fields (rw (y, not_absolute) at h))
      | inr n ↦ absurd (quoted (_ +s _) (rw (n, not_absolute) at h))
    ]

settings-IsValid :
    (file : String) (fields : Map Value) (policy : Policy)
    → not_absolute ("desired" ∷ "profile" ∷ []) fields ≡ ""
    → (parse_settings file fields).0 ≡ some policy
    → IsValid policy
unfolding parse_settings
settings-IsValid file fields policy paths h =
    let absolute = not_absolute-IsAbsolute ("desired" ∷ "profile" ∷ []) fields paths in
    let health = health-Known (lookup "health" fields) in
    subst IsValid (some-injective _ policy h) (record {
      named = full_name-has_suffix (required "unit" fields);
      desired = absolute.0;
      profile = absolute.1.0;
      detector = detector-known (lookup "detector" fields);
      ports = parse_ports-IsPort (lookup "ports" fields);
      gated = health.1;
      health = health.0;
      samples = integer-bound "idleSamples" 3 1 (lookup "idleSamples" fields) (omega arith);
      timeout = integer-bound "healthTimeout" 120 1 (lookup "healthTimeout" fields) (omega arith);
    })

-- A policy that is read, from whatever is in its file, names a unit with its suffix, a desired version and
-- a profile by absolute paths, a detector that there is, and ports from 1 to 65535 that are the same on both
-- sides; it has a check to gate on, every one of them a check that there is, and asks for one idle sample
-- and one second of health timeout at least.
pub parse_policy-IsValid :
    (document : Document) (file : String) (policy : Policy)
    → (parse_policy document file).0 ≡ some policy
    → IsValid policy
unfolding parse_policy parse_object
parse_policy-IsValid (broken e) file policy h = cc
parse_policy-IsValid trailing file policy h = cc
parse_policy-IsValid not_object file policy h = cc
parse_policy-IsValid (object fields) file policy h =
    let no_value = missing ("unit" ∷ "desired" ∷ "profile" ∷ []) fields in
    let no_path = not_absolute ("desired" ∷ "profile" ∷ []) fields in
    elim (Bool-cases (str_eq no_value "")) [
      | inr n ↦ absurd (ground arith)
      | inl y ↦ elim (Bool-cases (str_eq no_path "")) [
        | inr n ↦ absurd (ground arith)
        | inl z ↦
            settings-IsValid file fields policy (ground (arith, eq_iff no_path ""))
              (rw (y, z, parse_object) at h)
      ]
    ]

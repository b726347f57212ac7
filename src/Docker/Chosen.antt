-- ===== src/Docker/Chosen.antt =====
-- Which containers have a policy, and what a policy that internal/docker/labels.go reads satisfies.
use tidewaiter.Common.{
  ℕ, ◌≤◌, String, ◌≡◌, ◌≢◌, refl, inl, inr, not, ◌&&◌, Option, none, some, List, [], ◌∷◌, ◌++◌, Map,
  lookup, All, Elem, All-snoc, All-Elem, contains, contains_iff, str_eq, arith, Bool-cases,
  Option-cases, trim, to_lower, atoi, Whole, plus, minus, decimal, split, has_key, subst,
}
use mathlib.Core.Option.{some-injective}
use tidewaiter.Model.{Protocol, PublishedPort}
use tidewaiter.Ports.{Term, unrecognised, out_of_range, port, parse_port}
use tidewaiter.Docker.State.{Autoupdate, Policy}
use tidewaiter.Docker.Labels.{
  detector_names, check_names, Read, autoupdate_named, read_detector, add_check, choose, choose_all,
  or_default, parse_health, at_least, whole, number, selects, is_selected, select, select_term,
  select_all, select_ports, parse_settings, parse_labels,
}

-- Names of checks that there are.
abbrev pub Known : List String → Type 0
Known names = All (λ name. Elem name check_names) names

-- The ports are among those that are published.
abbrev pub Among : List PublishedPort → List PublishedPort → Type 0
Among published ports = All (λ p. Elem p published) ports

pub record IsSound (labels : Map String) (published : List PublishedPort) (policy : Policy)
    : Type 0 where
  pub detector : Elem policy.detector detector_names
  pub gated : policy.health ≢ []
  pub health : Known policy.health
  pub samples : 1 ≤ policy.idle_samples
  pub timeout : 1 ≤ policy.health_timeout_seconds
  pub ports : Among published policy.ports
  pub override : policy.ports_override ≡ has_key "tidewaiter.ports" labels

detector-known : (v : Option String) → Elem (read_detector v).0 detector_names
unfolding read_detector
detector-known none = inl refl
detector-known (some value) =
    let term = to_lower (trim value) in
    elim (Bool-cases (contains detector_names term)) [
      | inl y ↦ rw y (ground (arith, contains_iff detector_names term))
      | inr n ↦ rw n (inl refl)
    ]

add_check-Known :
    (name : String) (chosen : List String)
    → Elem name check_names
    → Known chosen
    → Known (add_check name chosen)
add_check-Known name chosen known h = elim (Bool-cases (contains chosen name)) [
  | inl y ↦ rw (y, add_check) h
  | inr n ↦ rw (n, add_check) (All-snoc (λ x. Elem x check_names) chosen name h known)
]

choose-Known :
    (raw term : String) (chosen : List String) → Known chosen → Known (choose raw term chosen).0
choose-Known raw term chosen h = elim (Bool-cases (str_eq term "")) [
  | inl e ↦ rw (e, choose) h
  | inr e ↦
      rw (e, choose)
        (elim (Bool-cases (str_eq term "port")) [
          | inl p ↦
              rw (p, choose)
                (add_check-Known "port-bound" (add_check "port-connect" chosen)
                  (inr (inr (inl refl))) (add_check-Known "port-connect" chosen (inr (inl refl)) h))
          | inr p ↦
              rw (p, choose)
                (elim (Bool-cases (contains check_names term)) [
                  | inr n ↦ rw (n, choose) h
                  | inl y ↦
                      let known : Elem term check_names =
                        ground (arith, contains_iff check_names term) in
                      rw (y, choose) (add_check-Known term chosen known h)
                ])
        ])
]

choose_all-Known : (terms chosen : List String) → Known chosen → Known (choose_all terms chosen).0
unfolding choose_all
choose_all-Known [] chosen h = h
choose_all-Known (raw ∷ rest) chosen h =
    choose_all-Known rest (choose raw (to_lower (trim raw)) chosen).0
      (choose-Known raw (to_lower (trim raw)) chosen h)

or_default-Known :
    (r : Read (List String)) → Known r.0 → Known (or_default r).0 × ((or_default r).0 ≢ [])
or_default-Known ([], said) h = (All-Elem check_names, λ e. cc)
or_default-Known (name ∷ names, said) h = (h, λ e. cc)

health-Known : (v : Option String) → Known (parse_health v).0 × ((parse_health v).0 ≢ [])
unfolding parse_health
health-Known none = (All-Elem check_names, λ e. cc)
health-Known (some value) =
    or_default-Known (choose_all (split 44 value) []) (choose_all-Known (split 44 value) [] tt)

at_least-bound :
    (name value fallback : String) (least n : ℕ) (w : Whole)
    → (at_least name value least fallback w).0 ≡ some n
    → least ≤ n
at_least-bound name value fallback least n (plus m) h = ground arith
at_least-bound name value fallback least n (minus m) h = cc

whole-bound :
    (labels : Map String) (name fallback : String) (least n : ℕ)
    → (whole labels name least fallback).0 ≡ some n
    → least ≤ n
unfolding whole
whole-bound labels name fallback least n h = elim (Option-cases (lookup name labels)) [
  | inl e ↦ absurd (ground arith)
  | inr (value, e) ↦ elim (Option-cases (atoi (trim value))) [
    | inl f ↦ absurd (ground arith)
    | inr (w, f) ↦ at_least-bound name value fallback least n w (rw (e, whole, f) at h)
  ]
]

number-bound :
    (labels : Map String) (name : String) (fallback least : ℕ)
    → least ≤ fallback
    → least ≤ (number labels name fallback least).0
unfolding number
number-bound labels name fallback least h =
    let found = whole labels name least (decimal fallback) in
    elim (Option-cases found.0) [
      | inl e ↦ rw (e, number) h
      | inr (n, e) ↦ rw (e, number) (whole-bound labels name (decimal fallback) least n e)
    ]

module _ (published : List PublishedPort) where
  select-Among :
      (n : ℕ) (protocol : Option Protocol) (candidates selected : List PublishedPort)
      → Among published candidates
      → Among published selected
      → Among published (select n protocol candidates selected).1
  select-Among n protocol [] selected c h = h
  select-Among n protocol (p ∷ ps) selected c h =
      elim (Bool-cases (selects n protocol p && not (is_selected p selected))) [
        | inl y ↦
            rw (y, select)
              (select-Among n protocol ps (selected ++ p ∷ []) c.1
                (All-snoc (λ x. Elem x published) selected p h c.0))
        | inr y ↦ rw (y, select) (select-Among n protocol ps selected c.1 h)
      ]

  select_term-Among :
      (text : String) (term : Term) (selected : List PublishedPort)
      → Among published selected
      → Among published (select_term text term published selected).0
  select_term-Among text unrecognised selected h = h
  select_term-Among text out_of_range selected h = h
  select_term-Among text (port n protocol) selected h =
      select-Among n protocol published selected (All-Elem published) h

  select_all-Among :
      (terms : List String) (selected : List PublishedPort)
      → Among published selected
      → Among published (select_all terms published selected).0
  unfolding select_all
  select_all-Among [] selected h = h
  select_all-Among (raw ∷ rest) selected h = elim (Bool-cases (str_eq (trim raw) "")) [
    | inl y ↦ rw (y, select_all) (select_all-Among rest selected h)
    | inr n ↦
        let term = trim raw in
        rw (n, select_all)
          (select_all-Among rest (select_term term (parse_port term) published selected).0
            (select_term-Among term (parse_port term) selected h))
  ]

  select_ports-Among : (v : Option String) → Among published (select_ports v published).0.0
  unfolding select_ports
  select_ports-Among none = tt
  select_ports-Among (some value) = select_all-Among (split 44 value) [] tt

  override-told :
      (labels : Map String)
      → (select_ports (lookup "tidewaiter.ports" labels) published).0.1
        ≡ has_key "tidewaiter.ports" labels
  unfolding select_ports
  override-told labels = elim (Option-cases (lookup "tidewaiter.ports" labels)) [
    | inl e ↦ rw (e, has_key) refl
    | inr (v, e) ↦ rw (e, has_key) refl
  ]

  settings-IsSound :
      (autoupdate : Autoupdate) (labels : Map String)
      → IsSound labels published (parse_settings autoupdate labels published).0
  unfolding parse_settings
  settings-IsSound autoupdate labels =
      let health = health-Known (lookup "tidewaiter.health" labels) in
      record {
        detector = detector-known (lookup "tidewaiter.detector" labels);
        gated = health.1;
        health = health.0;
        samples = number-bound labels "tidewaiter.idle-samples" 3 1 (omega arith);
        timeout = number-bound labels "tidewaiter.health-timeout" 120 1 (omega arith);
        ports = select_ports-Among (lookup "tidewaiter.ports" labels);
        override = override-told labels;
      }

-- The value of the opt-in label, where it is there.
abbrev pub Opted : String → Map String → Autoupdate → Type 0
Opted opt_in labels autoupdate =
    (value : String) × (lookup opt_in labels ≡ some value)
    × (autoupdate_named (to_lower (trim value)) ≡ some autoupdate)

-- A container has a policy exactly when its opt-in label spells one, in whatever case and within whatever
-- space; the policy is that one, with a detector that there is, a check to gate on, every one of them a
-- check that there is, one idle sample and one second of health timeout at least, and ports that the
-- container publishes, selected only where it has the label for them.
pub parse_labels_lem :
    (opt_in : String) (labels : Map String) (published : List PublishedPort)
    → ((policy : Policy)
        → (parse_labels opt_in labels published).0 ≡ some policy
        → Opted opt_in labels policy.autoupdate × IsSound labels published policy)
      × ((autoupdate : Autoupdate)
          → Opted opt_in labels autoupdate
          → (policy : Policy) × ((parse_labels opt_in labels published).0 ≡ some policy)
            × (policy.autoupdate ≡ autoupdate))
unfolding parse_labels parse_settings
parse_labels_lem opt_in labels published = (
  λ policy h. elim (Option-cases (lookup opt_in labels)) [
    | inl e ↦ absurd (cc (rw (e, parse_labels) at h))
    | inr (value, e) ↦ elim (Option-cases (autoupdate_named (to_lower (trim value)))) [
      | inl f ↦ absurd (cc (rw (e, parse_labels, f) at h))
      | inr (a, f) ↦
          let parsed = (parse_settings a labels published).0 in
          let same = some-injective parsed policy (rw (e, parse_labels, f) at h) in
          subst (λ q. Opted opt_in labels q.autoupdate × IsSound labels published q) same
            ((value, e, f), settings-IsSound published a labels)
    ]
  ],
  λ a (value, e, f).
      let parsed = (parse_settings a labels published).0 in
      (parsed, rw (e, parse_labels, f) refl, refl),
)

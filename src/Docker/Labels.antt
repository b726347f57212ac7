-- ===== src/Docker/Labels.antt =====
-- `ParseLabels` of internal/docker/labels.go: the policy that a container's labels spell, and what is
-- warned of them.
mod Examples
use tidewaiter.Common.{
  ℕ, String, ◌+s◌, Bool, true, false, not, ◌&&◌, ◌||◌, Option, none, some, List, [], ◌∷◌, ◌++◌, Map,
  lookup, contains, join, trim, to_lower, split, atoi, Whole, plus, minus, decimal, ltb, ◌==◌,
  if◌then◌else◌, str_eq,
}
use tidewaiter.Model.{Protocol, PublishedPort, same_protocol}
use tidewaiter.Ports.{Term, unrecognised, out_of_range, port, parse_port}
use tidewaiter.Docker.State.{Autoupdate, registry, local, Policy}

abbrev pub policy_names : List String
policy_names = "registry" ∷ "local" ∷ []

abbrev pub detector_names : List String
detector_names = "conntrack" ∷ "tcp" ∷ "netio" ∷ "none" ∷ []

abbrev pub check_names : List String
check_names = "docker" ∷ "port-connect" ∷ "port-bound" ∷ "uptime" ∷ []

-- A label's value, with what it warns of.
abbrev pub Read : Type 0 → Type 0
Read A = A × List String

abbrev pub autoupdate_named : String → Option Autoupdate
autoupdate_named term =
    if str_eq term "registry"
    then some registry
    else if str_eq term "local"
    then some local
    else none

unfoldable pub read_detector : Option String → Read String
read_detector none = ("conntrack", [])
read_detector (some value) =
    let term = to_lower (trim value) in
    if contains detector_names term then (term, []) else (
      "conntrack",
      ("tidewaiter.detector: '"
            +s value
            +s "' is not one of "
            +s join ", " detector_names
            +s "; using conntrack")
          ∷ [],
    )

-- `add` of `parseHealth`.
abbrev pub add_check : String → List String → List String
add_check name chosen = if contains chosen name then chosen else chosen ++ name ∷ []

-- One term of the loop of `parseHealth`, over the checks chosen so far.
abbrev pub choose : String → String → List String → Read (List String)
choose raw term chosen =
    if str_eq term ""
    then (chosen, [])
    else if str_eq term "port"
    then (add_check "port-bound" (add_check "port-connect" chosen), [])
    else if contains check_names term
    then (add_check term chosen, [])
    else (
      chosen,
      ("tidewaiter.health: '"
            +s trim raw
            +s "' is not a known check ("
            +s join ", " check_names
            +s "); ignoring it")
          ∷ [],
    )

unfoldable pub choose_all : List String → List String → Read (List String)
choose_all [] chosen = (chosen, [])
choose_all (raw ∷ rest) chosen =
    let (chosen', said) = choose raw (to_lower (trim raw)) chosen in
    let (all_chosen, later) = choose_all rest chosen' in (all_chosen, said ++ later)

abbrev pub or_default : Read (List String) → Read (List String)
or_default ([], said) = (check_names, said)
or_default (name ∷ names, said) = (name ∷ names, said)

-- `parseHealth`, where the label is there.
unfoldable pub parse_health : Option String → Read (List String)
unfolding choose_all
parse_health none = (check_names, [])
parse_health (some value) = or_default (choose_all (split 44 value) [])

-- A number below the least that is asked.
abbrev pub too_small : String → String → ℕ → String → String
too_small name value least fallback =
    if least == 0
    then name +s ": '" +s value +s "' must not be negative; using " +s fallback
    else name +s ": '" +s value +s "' must be at least " +s decimal least +s "; using " +s fallback

abbrev pub at_least : String → String → ℕ → String → Whole → Read (Option ℕ)
at_least name value least fallback (plus n) =
    if ltb n least then (none, too_small name value least fallback ∷ []) else (some n, [])
at_least name value least fallback (minus n) = (none, too_small name value least fallback ∷ [])

-- `whole`; `none` is its false.
unfoldable pub whole : Map String → String → ℕ → String → Read (Option ℕ)
whole labels name least fallback = elim (lookup name labels) [
  | none ↦ (none, [])
  | some value ↦ elim (atoi (trim value)) [
    | none ↦ (none, (name +s ": '" +s value +s "' is not a whole number; ignoring it") ∷ [])
    | some n ↦ at_least name value least fallback n
  ]
]

abbrev pub or_else : ℕ → Option ℕ → ℕ
or_else fallback none = fallback
or_else fallback (some n) = n

-- `number`.
unfoldable pub number : Map String → String → ℕ → ℕ → Read ℕ
unfolding whole
number labels name fallback least =
    let (found, said) = whole labels name least (decimal fallback) in (or_else fallback found, said)

-- Whether a term's protocol, which it may not name, is that one.
abbrev pub matches : Option Protocol → Protocol → Bool
matches none q = true
matches (some p) q = same_protocol q p

abbrev pub selects : ℕ → Option Protocol → PublishedPort → Bool
selects n protocol candidate = candidate.host_port == n && matches protocol candidate.protocol

abbrev pub is_selected : PublishedPort → List PublishedPort → Bool
is_selected p [] = false
is_selected p (q ∷ qs) =
    (same_protocol q.protocol p.protocol && q.host_port == p.host_port) || is_selected p qs

-- The loop over the candidates: whether one matched, and the ports selected so far.
abbrev pub select :
    ℕ → Option Protocol → List PublishedPort → List PublishedPort → Bool × List PublishedPort
select n protocol [] selected = (false, selected)
select n protocol (c ∷ cs) selected =
    let now =
      if selects n protocol c && not (is_selected c selected)
      then selected ++ c ∷ []
      else selected in
    let (later, all_selected) = select n protocol cs now in
    (selects n protocol c || later, all_selected)

abbrev pub select_term :
    String → Term → List PublishedPort → List PublishedPort → Read (List PublishedPort)
select_term term unrecognised published selected =
    (selected, ("tidewaiter.ports: ignoring unrecognised port '" +s term +s "'") ∷ [])
select_term term out_of_range published selected = (
  selected,
  ("tidewaiter.ports: ignoring '" +s term +s "', ports must be between 1 and 65535") ∷ [],
)
select_term term (port n protocol) published selected =
    let (matched, now) = select n protocol published selected in
    (
      now,
      if matched
          then []
          else ("tidewaiter.ports: '" +s term
              +s "' is not a port this container publishes; ignoring it")
            ∷ [],
    )

-- The loop of `selectPorts`.
unfoldable pub select_all :
    List String → List PublishedPort → List PublishedPort → Read (List PublishedPort)
select_all [] published selected = (selected, [])
select_all (raw ∷ rest) published selected =
    let term = trim raw in
    let (now, said) =
      if str_eq term ""
      then (selected, [])
      else select_term term (parse_port term) published selected in
    let (all_selected, later) = select_all rest published now in (all_selected, said ++ later)

-- `selectPorts`, where the label is there, and whether it is.
unfoldable pub select_ports : Option String → List PublishedPort → Read (List PublishedPort × Bool)
unfolding select_all
select_ports none published = (([], false), [])
select_ports (some value) published =
    let (selected, said) = select_all (split 44 value) published [] in ((selected, true), said)

-- The end of `ParseLabels`, of a container that is opted in.
unfoldable pub parse_settings : Autoupdate → Map String → List PublishedPort → Policy × List String
unfolding read_detector parse_health number whole select_ports
parse_settings autoupdate labels published =
    let (detector, said1) = read_detector (lookup "tidewaiter.detector" labels) in
    let (health, said2) = parse_health (lookup "tidewaiter.health" labels) in
    let (idle_samples, said3) = number labels "tidewaiter.idle-samples" 3 1 in
    let (timeout, said4) = number labels "tidewaiter.health-timeout" 120 1 in
    let (keep, said5) = number labels "tidewaiter.keep-images" 1 0 in
    let (grace, said6) = whole labels "tidewaiter.grace" 0 "the container's own stop timeout" in
    let ((ports, override), said7) = select_ports (lookup "tidewaiter.ports" labels) published in
    (
      record {
        autoupdate = autoupdate;
        detector = detector;
        ports = ports;
        ports_override = override;
        idle_samples = idle_samples;
        health = health;
        health_timeout_seconds = timeout;
        grace_seconds = grace;
        keep_images = keep;
      },
      said1 ++ (said2 ++ (said3 ++ (said4 ++ (said5 ++ (said6 ++ said7))))),
    )

-- `ParseLabels`.
unfoldable pub parse_labels : String → Map String → List PublishedPort → Option Policy × List String
unfolding parse_settings
parse_labels opt_in labels published = elim (lookup opt_in labels) [
  | none ↦ (none, [])
  | some value ↦ elim (autoupdate_named (to_lower (trim value))) [
    | none ↦ (
      none,
      (opt_in
            +s ": '"
            +s value
            +s "' is not a known policy ("
            +s join ", " policy_names
            +s "); ignoring this container")
          ∷ [],
    )
    | some autoupdate ↦
        let (policy, said) = parse_settings autoupdate labels published in (some policy, said)
  ]
]

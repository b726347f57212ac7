-- ===== src/Systemd/Parse.antt =====
-- `ParsePolicy` of internal/systemd/units.go, over the settings of a file.
use tidewaiter.Common.{
  ℕ, String, ◌+s◌, Bool, false, not, ◌&&◌, ◌||◌, Option, none, some, List, [], ◌∷◌, ◌++◌, Map,
  lookup, contains, join, trim, to_lower, ◌==◌, if◌then◌else◌, str_eq, map,
}
use text.Mathlib.Text.{starts_with}
use tidewaiter.Model.{Protocol, tcp, udp, PublishedPort, same_protocol}
use tidewaiter.Ports.{Term, unrecognised, out_of_range, port, parse_port}
use tidewaiter.Systemd.Settings.{
  health_names, Policy, Item, Value, list, Document, broken, trailing, not_object, object,
  display_item, Read, required, full_name, read_detector, read_bind_closure, integer,
}

-- A host unit's port is the same on both sides.
abbrev pub host_port_of : ℕ → Protocol → PublishedPort
host_port_of n protocol = record { host_port = n; container_port = n; protocol = protocol }

abbrev pub protocols_of : Option Protocol → List Protocol
protocols_of none = tcp ∷ udp ∷ []
protocols_of (some p) = p ∷ []

-- `seen[published]`.
abbrev pub declared : PublishedPort → List PublishedPort → Bool
declared p [] = false
declared p (q ∷ qs) =
    (p.host_port == q.host_port
      && p.container_port == q.container_port
      && same_protocol p.protocol q.protocol)
    || declared p qs

abbrev pub declare : ℕ → List Protocol → List PublishedPort → List PublishedPort
declare n [] ports = ports
declare n (protocol ∷ rest) ports = declare n rest (
    if declared (host_port_of n protocol) ports
    then ports
    else ports ++ host_port_of n protocol ∷ [])

abbrev pub port_warning : String → String
port_warning term = "ports: ignoring '" +s term +s "', ports must be between 1 and 65535"

-- One term of the loop of `parsePorts`, over the ports so far.
abbrev pub declare_term : String → Term → List PublishedPort → Read (List PublishedPort)
declare_term term unrecognised ports =
    (ports, ("ports: ignoring unrecognised port '" +s term +s "'") ∷ [])
declare_term term out_of_range ports = (ports, port_warning term ∷ [])
declare_term term (port n protocol) ports = (declare n (protocols_of protocol) ports, [])

unfoldable pub declare_all : List Item → List PublishedPort → Read (List PublishedPort)
unfolding parse_port trim
declare_all [] ports = (ports, [])
declare_all (raw ∷ rest) ports =
    let term = trim (display_item raw) in
    let (ports', said) = declare_term term (parse_port term) ports in
    let (all_ports, later) = declare_all rest ports' in (all_ports, said ++ later)

-- `parsePorts`.
abbrev pub parse_ports : Option Value → Read (List PublishedPort)
parse_ports none = ([], [])
parse_ports (some (list items shown)) = declare_all items []
parse_ports (some v) =
    ([], "ports: must be a list like [\"19132/udp\", \"25565\"]; ignoring it" ∷ [])

-- One term of the loop of `parseHealth`, over the checks chosen so far.
abbrev pub choose : String → String → List String → Read (List String)
choose raw term chosen =
    if str_eq term "docker"
    then (
      chosen,
      "health: 'docker' needs a container's HEALTHCHECK, which a unit does not have; ignoring it"
          ∷ [],
    )
    else if not (contains health_names term)
    then (
      chosen,
      ("health: '"
            +s raw
            +s "' is not a known check ("
            +s join ", " health_names
            +s "); ignoring it")
          ∷ [],
    )
    else if contains chosen term
    then (chosen, [])
    else (chosen ++ term ∷ [], [])

unfoldable pub choose_all : List Item → List String → Read (List String)
unfolding to_lower trim
choose_all [] chosen = (chosen, [])
choose_all (raw ∷ rest) chosen =
    let (chosen', said) = choose (display_item raw) (to_lower (trim (display_item raw))) chosen in
    let (all_chosen, later) = choose_all rest chosen' in (all_chosen, said ++ later)

abbrev pub or_default : Read (List String) → Read (List String)
or_default ([], said) = (health_names, said)
or_default (name ∷ names, said) = (name ∷ names, said)

-- `parseHealth`.
abbrev pub parse_health : Option Value → Read (List String)
parse_health none = (health_names, [])
parse_health (some (list items shown)) = or_default (choose_all items [])
parse_health (some v) =
    (health_names, "health: must be a list like [\"systemd\", \"uptime\"]; using the default" ∷ [])

abbrev pub labelled : String → List String → List String
labelled file said = map (λ w. file +s ": " +s w) said

abbrev pub skip : String → String → Option Policy × List String
skip file why = (none, (file +s ": " +s why +s "; skipping it") ∷ [])

-- The end of `ParsePolicy`, once the three settings that are required are there.
unfoldable pub parse_settings : String → Map Value → Option Policy × List String
unfolding integer declare_all choose_all
parse_settings file fields =
    let (detector, said1) = read_detector (lookup "detector" fields) in
    let (bind_closure, said2) = read_bind_closure (lookup "bindClosure" fields) in
    let (ports, said3) = parse_ports (lookup "ports" fields) in
    let (health, said4) = parse_health (lookup "health" fields) in
    let (idle_samples, said5) = integer "idleSamples" 3 1 (lookup "idleSamples" fields) in
    let (timeout, said6) = integer "healthTimeout" 120 1 (lookup "healthTimeout" fields) in
    let (keep, said7) = integer "keepGenerations" 1 0 (lookup "keepGenerations" fields) in
    (
      some (record {
        unit = full_name (required "unit" fields);
        desired = required "desired" fields;
        profile = required "profile" fields;
        detector = detector;
        ports = ports;
        idle_samples = idle_samples;
        health = health;
        health_timeout_seconds = timeout;
        keep_generations = keep;
        bind_closure = bind_closure;
      }),
      labelled file (said1 ++ (said2 ++ (said3 ++ (said4 ++ (said5 ++ (said6 ++ said7)))))),
    )

-- Why a setting that is required is not usable; "" where it is.
abbrev pub missing : List String → Map Value → String
missing [] fields = ""
missing (name ∷ names) fields =
    if str_eq (required name fields) ""
    then "'" +s name +s "' must be a non-empty string"
    else missing names fields

abbrev pub not_absolute : List String → Map Value → String
not_absolute [] fields = ""
not_absolute (name ∷ names) fields =
    if starts_with (required name fields) "/"
    then not_absolute names fields
    else "'" +s name +s "' must be an absolute path, got '" +s required name fields +s "'"

unfoldable pub parse_object : String → Map Value → Option Policy × List String
unfolding parse_settings
parse_object file fields =
    let no_value = missing ("unit" ∷ "desired" ∷ "profile" ∷ []) fields in
    let no_path = not_absolute ("desired" ∷ "profile" ∷ []) fields in
    if not (str_eq no_value "")
    then skip file no_value
    else if not (str_eq no_path "")
    then skip file no_path
    else parse_settings file fields

-- `ParsePolicy`.
unfoldable pub parse_policy : Document → String → Option Policy × List String
unfolding parse_object
parse_policy (broken e) file = skip file ("not valid JSON (" +s e +s ")")
parse_policy trailing file = skip file "not valid JSON (something after the object)"
parse_policy not_object file = skip file "not a JSON object"
parse_policy (object fields) file = parse_object file fields

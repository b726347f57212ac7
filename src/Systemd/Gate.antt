-- ===== src/Systemd/Gate.antt =====
-- `gate` of internal/systemd/source.go, with `CgroupBoundPorts` of internal/health/checks.go: the checks
-- of a unit that was restarted, polled by the loop of internal/health/gate.go. Times are nanoseconds.
use tidewaiter.Common.{
  ℕ, ◌*◌, String, ◌+s◌, Bool, not, ◌&&◌, Option, none, some, List, [], ◌∷◌, if◌then◌else◌, str_eq,
}
use tidewaiter.Model.{Protocol, no_health, same_protocol}
use tidewaiter.Source.{Answer, answered, errored}
use tidewaiter.Health.{Result, Verdict, roll_back, uptime_seconds}
use tidewaiter.Health.Checks
use tidewaiter.Health.Gate
use tidewaiter.Systemd.Unit.{UnitState, JobResult, job_text, is_up, restarted_since, verdict}
use tidewaiter.Systemd.Settings.{Policy}
use tidewaiter.Systemd.State.{Listener, Kept, State, Deps, Call, ◌>>=◌, pure, ask}

-- A check of the gate, with when it first saw the unit, `none` being Go's zero time.
pub data Check : Type 0 where
  systemd port_bound : Check
  uptime port_connect : Option ℕ → Check

-- The loop over `policy.Health`.
unfoldable pub checks_of : List String → List Check
checks_of [] = []
checks_of (name ∷ names) =
    let rest = checks_of names in
    if str_eq name "systemd"
    then systemd ∷ rest
    else if str_eq name "uptime"
    then uptime none ∷ rest
    else if str_eq name "port-connect"
    then port_connect none ∷ rest
    else if str_eq name "port-bound"
    then port_bound ∷ rest
    else rest

module _ (within : Listener → String → Bool) where
  abbrev pub bound_ports : String → Protocol → List Listener → List ℕ
  bound_ports group protocol [] = []
  bound_ports group protocol (l ∷ ls) =
      let rest = bound_ports group protocol ls in
      if same_protocol l.protocol protocol && within l group then l.port ∷ rest else rest

  -- `CgroupBoundPorts`, over one listing.
  unfoldable pub cgroup_bound_ports : Answer (List Listener) → String → Checks.BoundPorts
  cgroup_bound_ports (errored e) group protocol = none
  cgroup_bound_ports (answered listening) group protocol =
      if str_eq group "" then none else some (bound_ports group protocol listening)

-- One check, over what the gate last read.
unfoldable pub check : ℕ → ℕ → UnitState → UnitState → Checks.Input → Check → Result × Check
check grace now baseline latest input systemd = (verdict JobResult.done baseline latest, systemd)
check grace now baseline latest input port_bound = (Checks.port_bound input, port_bound)
check grace now baseline latest input (uptime seen) =
    let (result, seen') = Checks.uptime grace now input seen in (result, uptime seen')
check grace now baseline latest input (port_connect seen) =
    let (result, seen') = Checks.port_connect grace now input seen in (result, port_connect seen')

unfoldable pub check_all :
    ℕ → ℕ → UnitState → UnitState → Checks.Input → List Check → List Result × List Check
unfolding check
check_all grace now baseline latest input [] = ([], [])
check_all grace now baseline latest input (c ∷ cs) =
    let (result, c') = check grace now baseline latest input c in
    let (results, cs') = check_all grace now baseline latest input cs in
    (result ∷ results, c' ∷ cs')

module _ {W : Type 0} (deps : Deps W) where
  open deps use {unit, listening, within, connect, now, done, sleep, health_poll}

  -- The input of one evaluation.
  abbrev pub input_of : Policy → UnitState → UnitState → W → Checks.Input
  input_of policy baseline latest w = record {
    subject = record {
      running = is_up latest && not (restarted_since baseline latest);
      health = no_health;
      networks = [];
      network_mode = "host";
    };
    ports = policy.ports;
    bound = cgroup_bound_ports within (listening w) latest.control_group;
    connect = connect w;
    network_driver = none;
  }

  -- `evaluate`.
  unfoldable pub evaluate : Policy → UnitState → W × List Check → Gate.Answer × (W × List Check)
  evaluate policy baseline (w, checks) =
      let (answer, w') = unit policy.unit w in
      elim answer [
        | errored e ↦ (Gate.errored e, (w', checks))
        | answered latest ↦
            let (results, checks') =
              check_all (uptime_seconds policy.health_timeout_seconds) (now w') baseline latest
                (input_of policy baseline latest w') checks in
            (Gate.results results, (w', checks'))
      ]

  -- What the polling loop sees.
  abbrev pub gate_world : Policy → UnitState → Gate.World (W × List Check)
  gate_world policy baseline = record {
    now = λ s. now s.0;
    done = λ s. done s.0;
    evaluate = evaluate policy baseline;
    sleep = λ d (w, checks). let (cut, w') = sleep d w in (cut, (w', checks));
  }

  abbrev pub timing_of : Policy → Gate.Timing
  timing_of policy = record {
    timeout = policy.health_timeout_seconds * Checks.second;
    poll = health_poll;
  }

  abbrev pub ended : Gate.Ended → Verdict
  ended (Gate.decided v) = v
  ended (Gate.given_up e) = roll_back ("the health gate was aborted (" +s e +s ")")

  -- The loop never runs out of fuel; if it did, that would be the error "".
  abbrev pub gate_ended :
      Kept → W → Option (Gate.Ended × (W × List Check)) → Answer Verdict × State W
  gate_ended k w0 none = (errored "", (k, w0))
  gate_ended k w0 (some (e, (w, checks))) = (answered (ended e), (k, w))

  unfoldable pub gate_done : Policy → Call W Verdict
  gate_done policy = ask (unit policy.unit) >>= λ baseline (k, w).
      gate_ended k w
        (Gate.gate (gate_world policy baseline) (timing_of policy) (w, checks_of policy.health))

  -- `gate`.
  unfoldable pub gate : Policy → JobResult → Call W Verdict
  gate policy JobResult.done = gate_done policy
  gate policy job = pure (roll_back ("the restart job ended '" +s job_text job +s "'"))

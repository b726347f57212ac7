-- ===== src/Systemd/Examples.antt =====
-- Runs over a host where a unit's profile is full: it takes no new generation.
use tidewaiter.Common.{
  ℕ, ◌+◌, String, ◌≡◌, refl, ◌≢◌, ◌⊎◌, Bool, true, false, none, some, List, [], ◌∷◌, arith, trim,
  to_lower,
}
use tidewaiter.Decide
use tidewaiter.Health.{Verdict, roll_back}
use tidewaiter.Model.{udp}
use tidewaiter.Source.{answered, errored, finished}
use tidewaiter.Health.Checks.{unreachable}
use tidewaiter.Systemd.Unit.{UnitState, JobResult}
use tidewaiter.Systemd.Settings.{Policy, Document, word, item, list, object, has_suffix}
use tidewaiter.Systemd.Parse.{parse_policy, parse_settings}
use tidewaiter.Ports.{parse_port}
use tidewaiter.Systemd.State.{◌>>=◌, SwapRecord, Kept, State, Deps, new_source}
use tidewaiter.Systemd.Files.{load, policies}
use tidewaiter.Systemd.Sample.{dump_conntrack}
use tidewaiter.Systemd.Gate.{gate}
use tidewaiter.Systemd.Swap.{undo_steps, switch_back}
use tidewaiter.Systemd.Update.{change, swap}
use tidewaiter.Systemd.Pass.{once}
use tidewaiter.Systemd.Sight.{Next}
use tidewaiter.Systemd.Resumes.{Resumes}
use tidewaiter.Systemd.Leaves.{Leaves}
use tidewaiter.Systemd.Starts.{PutOff, CarriedOut, swap-starts}
use tidewaiter.Systemd.Dry.{IsLooking, Ends, once-Ends}
use tidewaiter.Systemd.Distinct.{units_of, Distinct}
use tidewaiter.Systemd.Reports.{Reports, once-Reports}
use tidewaiter.Systemd.Unread.{CannotLoad, CannotRead}
use tidewaiter.Systemd.Restore.{IsHost, change-Undone}
use tidewaiter.Systemd.Valid.{IsValid, parse_policy-IsValid}
use tidewaiter.Systemd.Gated.{IsClocked, Unreadable, gate-answers}

-- The host: its clock, the generation of the profile, and what the closure is bound to.
record Box : Type 0 where
  now : ℕ
  gen : ℕ
  closure : String

abbrev app_state : UnitState
app_state = record {
  name = "app.service";
  load_state = "loaded";
  active_state = "active";
  sub_state = "running";
  result = "success";
  restarts = 0;
  main_pid = 7;
  control_group = "/app";
  invocation_id = "i1";
}

abbrev settings : Document
settings = object (
    ("unit", item (word "app"))
    ∷ ("desired", item (word "/nix/store/new"))
    ∷ ("profile", item (word "/profiles/app"))
    ∷ ("ports", list (word "19132/udp" ∷ []) "[\"19132/udp\"]")
    ∷ [])

abbrev app : Policy
app = record {
  unit = "app.service";
  desired = "/nix/store/new";
  profile = "/profiles/app";
  detector = "none";
  ports = [];
  idle_samples = 1;
  health = "systemd" ∷ [];
  health_timeout_seconds = 1;
  keep_generations = 1;
  bind_closure = true;
}

abbrev box : Bool → Deps Box
box dry = record {
  dry_run = dry;
  health_poll = 1000000000;
  read_units = λ w. (answered (record { name = "app.json"; contents = "{}" } ∷ []), w);
  decode = λ s. settings;
  unit = λ name w. (answered app_state, w);
  restart = λ name w. (answered JobResult.done, w);
  daemon_reload = λ w. (none, w);
  current = λ profile w. (answered w.closure, w);
  generation = λ profile w. (answered w.gen, w);
  target = λ profile n w. (answered w.closure, w);
  set_profile = λ profile target w. (some "no space left on device", w);
  switch_generation = λ profile n w. (none, record w { gen = n });
  delete_generation = λ profile n w. (none, w);
  prune = λ profile n w. (none, w);
  bind = λ unit profile target w. (none, record w { closure = target });
  listening = λ w. answered [];
  within = λ l group. true;
  dump = λ w. (errored "no table", w);
  load = λ w. (answered [], w);
  save = λ memories w. (none, w);
  encode = λ memories. elim memories [ [] ↦ "" | m ∷ ms ↦ "some" ];
  netns = λ w pid table. none;
  connect = λ w host port. unreachable;
  now = λ w. w.now;
  done = λ w. none;
  sleep = λ d w. (none, record w { now = w.now + d });
}

abbrev start : Box
start = record { now = 0; gen = 4; closure = "/nix/store/old" }

swap-starts_example :
    let r = swap (box false) app app_state "/nix/store/old" 4 (new_source, start) in
    let looked = (dump_conntrack (box false) start).1 in
    PutOff (box false) app app_state "/nix/store/old" 4 looked r
    ⊎ ((k : Kept) × (k.saved ≡ new_source.saved)
        × CarriedOut (box false) app app_state "/nix/store/old" 4 (k, looked) r)
swap-starts_example = swap-starts (box false) app app_state "/nix/store/old" 4 new_source start

abbrev IsFour : Box → Type 0
IsFour w = w.gen ≡ 4

box-IsLooking : IsLooking (box true) IsFour
box-IsLooking = record {
  units = λ w p. p;
  loads = λ w p. p;
  unit = λ name w p. p;
  current = λ profile w p. p;
  generation = λ profile w p. p;
}

once-Ends_example :
    Ends (box true) IsFour box-IsLooking refl (once (box true) none (new_source, start))
once-Ends_example = once-Ends (box true) IsFour box-IsLooking refl none (new_source, start) refl

once-Reports_example :
    ((e : String) × (CannotLoad (box false) (new_source, start) e
        ⊎ CannotRead (box false) (new_source, start) e)
      × (once (box false) none (new_source, start)
          ≡ finished
              ((load (box false) >>= λ _. policies (box false)) (new_source, start)).1
              (errored e)))
    ⊎ ((found : List Policy) × (((load (box false) >>= λ _. policies (box false))
            (new_source, start)).0
          ≡ answered found)
        × Distinct (units_of found)
        × Reports (units_of found) (once (box false) none (new_source, start)))
once-Reports_example = once-Reports (box false) none (new_source, start)

box-IsHost : IsHost (box false) app (λ w. w.gen) (λ w. w.closure)
box-IsHost = record {
  reads = λ n w h. ground arith;
  generation_keeps = λ w. (refl, refl);
  deletes = λ n w h. (refl, refl);
  reloads = λ w. (refl, refl);
  restarts = λ w. (refl, refl);
  looks = λ w. (refl, refl);
  switches = λ n w. (λ h. refl, λ why h. absurd cc, refl);
  sets = λ target w. (λ why h. refl, refl);
  binds = λ target w. (λ h. refl, λ why h. absurd cc, refl);
}

undone_run :
    let (got, w) = change (box false) app start in
    (undo_steps (box false) app app_state "/nix/store/old" 4 got.bound got.set (new_source, w)).0
    ≡ answered tt
unfolding change undo_steps switch_back
undone_run = refl

change-Undone_example :
    let (got, w) = change (box false) app start in
    let undone =
      undo_steps (box false) app app_state "/nix/store/old" 4 got.bound got.set (new_source, w) in
    (undone.1.1.gen ≡ 4) × (undone.1.1.closure ≡ "/nix/store/old")
change-Undone_example =
    change-Undone (box false) app (λ w. w.gen) (λ w. w.closure) box-IsHost app_state
      "/nix/store/old" 4 new_source start (λ h. absurd cc) (λ h. absurd cc) refl refl undone_run

abbrev read_policy : Policy
read_policy = record {
  unit = "app.service";
  desired = "/nix/store/new";
  profile = "/profiles/app";
  detector = "conntrack";
  ports = (record { host_port = 19132; container_port = 19132; protocol = udp }) ∷ [];
  idle_samples = 3;
  health = "systemd" ∷ "port-connect" ∷ "port-bound" ∷ "uptime" ∷ [];
  health_timeout_seconds = 120;
  keep_generations = 1;
  bind_closure = false;
}

parse_run : (parse_policy settings "app.json").0 ≡ some read_policy
unfolding parse_policy parse_settings has_suffix trim to_lower parse_port
parse_run = refl

parse_policy-IsValid_example : IsValid read_policy
parse_policy-IsValid_example = parse_policy-IsValid settings "app.json" read_policy parse_run

box-IsClocked : IsClocked (box false)
box-IsClocked = record { unit_later = λ name w. omega arith; sleep_waits = λ d w h. omega arith }

gate-answers_example :
    let answer = (gate (box false) app JobResult.done (new_source, start)).0 in
    (((v : Verdict) × (answer ≡ answered v))
      ⊎ ((JobResult.done ≡ JobResult.done) × Unreadable (box false) app start answer))
    × (JobResult.done ≢ JobResult.done
        → answer ≡ answered (roll_back "the restart job ended 'done'"))
gate-answers_example =
    gate-answers (box false) app box-IsClocked JobResult.done (new_source, start) (omega arith)

abbrev interrupted : SwapRecord
interrupted = record {
  from = some 4;
  from_target = "/nix/store/old";
  to = "/nix/store/new";
  invocation_id = "i0";
}

abbrev ends_there : Next (box false)
ends_there answer s = finished s (answered [])

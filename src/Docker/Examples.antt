-- ===== src/Docker/Examples.antt =====
-- Runs of a swap on a host whose creates fail for lack of space.
use tidewaiter.Common.{
  suc, ◌≤◌, String, ◌≡◌, refl, inl, inr, true, false, none, some, List, [], ◌∷◌, leb, if◌then◌else◌,
  arith,
}
use tidewaiter.Decide
use tidewaiter.Detect
use tidewaiter.Health
use tidewaiter.Model.{ContainerSpec, RunningContainer, healthy}
use tidewaiter.Source.{answered, finished}
use tidewaiter.Docker.Recreate.{ImageDefaults, rollback_name, plan_swap}
use tidewaiter.Docker.Swap.{Engine, nothing_done, run, undo}
use tidewaiter.Docker.Host.{Names, assign, with_up, IsHost}
use tidewaiter.Docker.Restore.{Restored, Found, undo-Restored}
use tidewaiter.Docker.State.{
  Policy, registry, Image, no_memory, Kept, new_source, Deps, LocalImage, memory_of,
}
use tidewaiter.Docker.Reconcile.{
  still_pinned, adopt, streak_after, outcome_of, prefetch, sample, decision,
}
use tidewaiter.Docker.Pass.{Next, decided}
use tidewaiter.Docker.Pins.{failing_swaps, failing_swaps_lem}
use tidewaiter.Docker.Waits.{waiting-untouched}

abbrev full_disk : Engine Names
full_disk = record {
  stop = λ n grace w. (none, assign n (with_up false (w n)) w);
  rename = λ n to w. (none, assign to (w n) (assign n none w));
  create = λ spec w. (some "no space left on device", w);
  connect_network = λ n spec network w. (none, w);
  start = λ n w. (none, assign n (with_up true (w n)) w);
  remove = λ n force w. (none, assign n none w);
}

full_disk-IsHost : IsHost full_disk (λ w. w)
full_disk-IsHost = record {
  fresh = λ spec w. "new";
  stops = λ n grace w name. refl;
  renames = λ n to w name. refl;
  creates = λ spec w name. refl;
  connects_only = λ n spec network w name. refl;
  starts = λ n w name. refl;
  removes = λ n force w name. refl;
}

abbrev app : ContainerSpec
app = record {
  name = "app";
  image = "app:1";
  env = "A=1" ∷ "B=2" ∷ [];
  cmd = some ("serve" ∷ []);
  entrypoint = some ("/bin/own" ∷ []);
  labels = [];
  mounts = [];
  bindings = [];
  exposed = [];
  volumes = [];
  networks = [];
  network_mode = "bridge";
  user = "";
  working_dir = "";
  stop_signal = "";
  stop_timeout = none;
  healthcheck = none;
}

abbrev image : ImageDefaults
image = record {
  env = "A=1" ∷ [];
  cmd = "serve" ∷ [];
  entrypoint = none;
  labels = [];
  exposed = [];
  user = "";
  working_dir = "";
  stop_signal = "";
  healthcheck = none;
  volumes = [];
}

abbrev host : Names
host = assign "app" (some (record { id = "c1"; up = true })) (λ name. none)

host-free : host (rollback_name "app") ≡ none
unfolding rollback_name
host-free = refl

undo-Restored_example :
    let (out, w') = run full_disk (plan_swap app app 10).swap nothing_done host in
    let (e, w'') = undo full_disk "app" out.0 w' in
    (e ≡ none → Restored "app" "c1" w'') × Found "app" "c1" w''
undo-Restored_example =
    undo-Restored full_disk (λ w. w) full_disk-IsHost "c1" app app 10 host refl refl host-free

-- Its name is free and it runs again, though its new container was never created.
undone :
    let (out, w') = run full_disk (plan_swap app app 10).swap nothing_done host in
    (undo full_disk "app" out.0 w').1 "app" ≡ some (record { id = "c1"; up = true })
unfolding plan_swap run undo rollback_name
undone = refl

abbrev pub policy : Policy
policy = record {
  autoupdate = registry;
  detector = "none";
  ports = [];
  ports_override = false;
  idle_samples = 3;
  health = "uptime" ∷ [];
  health_timeout_seconds = 120;
  grace_seconds = none;
  keep_images = 1;
}

abbrev deps : Deps Names
deps = record {
  engine = full_disk;
  dry_run = false;
  default_grace_seconds = 10;
  containers = λ w. (answered [], w);
  image = λ id w. (answered none, w);
  image_digest = λ ref w. (answered "", w);
  pull = λ ref auth w. (none, w);
  remove_image = λ ref w. (none, w);
  registry_digest = λ ref w. (answered "sha256:new", w);
  auth_for = λ ref. "";
  opt_in = "tidewaiter.autoupdate";
  netns = λ w pid table. none;
  net_bytes = λ id w. (none, w);
  gate = λ name p w. (Health.commit, w);
}

abbrev old : Image
old = record { ref = "app:1"; digest = "sha256:old" }

abbrev history : List String
history = "sha256:old" ∷ "sha256:older" ∷ []

failing_swaps_example :
    let after = failing_swaps 3 no_memory (some old) "sha256:new" in
    (after.swap_failures ≡ 3)
    × (after.pinned ≡ (if leb 3 3 then "sha256:new" else ""))
    × (3 ≤ 3
        → let (later, k') =
            adopt "app" "sha256:old" "sha256:new" (still_pinned "sha256:new" after, new_source) in
          (later.pinned ≡ "sha256:new")
          × ((decision deps policy later "sha256:new" "sha256:old" false 9).kind ≡ Decide.pinned))
failing_swaps_example =
    failing_swaps_lem deps 2 no_memory (some old) policy "sha256:new" "sha256:old" "app" new_source
      false 9 (λ e. cc) refl (λ e. cc)

abbrev pub running : RunningContainer
running = record {
  id = "c1";
  pid = 100;
  spec = app;
  image_id = "i1";
  health = healthy;
  running = true;
}

abbrev stored : LocalImage
stored = record { digest = "sha256:old"; defaults = image }

abbrev alone : Next deps
alone o s = finished s (answered (o ∷ []))

-- It has been idle for one sample of the three that its policy asks.
waiting-untouched_example :
    let (m, k1) =
      adopt "app" "sha256:old" "sha256:new"
        (still_pinned "sha256:new" (memory_of "app" new_source), new_source) in
    let (result, s) =
      sample deps running policy none true
        (prefetch deps running policy "sha256:new" "sha256:old" m.pinned k1, host) in
    let streak = streak_after result.in_use m.idle_streak in
    (k' : Kept) × (decided deps none running policy "sha256:new"
        (some stored)
        alone
        (new_source, host)
      ≡ alone
          (outcome_of "app"
            (decision deps policy m "sha256:new" "sha256:old" result.in_use streak)
            result.in_use
            streak
            policy)
          (k', s.1))
    × (result.in_use ≡ true → (memory_of "app" k').idle_streak ≡ 0)
    × (result.in_use ≡ false
        → (memory_of "app" k').idle_streak ≡ suc (memory_of "app" new_source).idle_streak)
unfolding sample Detect.combine
waiting-untouched_example =
    waiting-untouched deps none running policy "sha256:new" (some stored) alone new_source host
      (inr (inl (omega arith)))

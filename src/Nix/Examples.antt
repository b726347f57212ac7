-- ===== src/Nix/Examples.antt =====
-- A unit's drop-in on a host that keeps one file.
use tidewaiter.Common.{has_char, String, ◌≡◌, ◌≢◌, refl, true, Option, none, some}
use tidewaiter.Source.{answered}
use tidewaiter.Nix.Paths.{join_path, dir_of}
use tidewaiter.Nix.Closure.{
  bindings, Binder, contents, missing, created, exists, Read, Create, closure_drop_in_text, file,
  ensure, bind,
}
use tidewaiter.Nix.Bound.{IsHost, BoundFor, Wrote, ensure-Bound}

record Disk : Type 0 where
  drop_in : Option String

abbrev read_of : Option String → Read
read_of none = missing
read_of (some s) = contents s

abbrev create_of : Option String → String → Create × Disk
create_of none s = (created, record { drop_in = some s })
create_of (some t) s = (exists, record { drop_in = some t })

abbrev disk : Binder Disk
disk = record {
  runtime_dir = "";
  nix_store = "";
  run = λ program args w. (answered "/nix/store/b-dep\n/nix/store/a-app\n/nix/store/b-dep\n", w);
  read_file = λ path w. (read_of w.drop_in, w);
  make_dir = λ dir w. (none, w);
  write = λ path s w. (none, record { drop_in = some s });
  create = λ path s w. create_of w.drop_in s;
}

abbrev profile : String
profile = "/nix/var/nix/profiles/app"

file_run : file disk "app.service" ≡ "/run/systemd/system/app.service.d/50-tidewaiter-closure.conf"
unfolding file join_path
file_run = refl

bind_run :
    (bind disk "app.service" profile "/nix/store/a-app" (record { drop_in = none })).1.drop_in
    ≡ some
        "# Written by tidewaiter before each restart: what the profile points at, and its closure.\n# Profile: /nix/var/nix/profiles/app\n[Service]\nBindReadOnlyPaths=/nix/var/nix/profiles\nBindReadOnlyPaths=/nix/store/a-app\nBindReadOnlyPaths=/nix/store/b-dep\n"
unfolding bind closure_drop_in_text bindings dir_of
bind_run = refl

found_cases : (found : Option String) (s : String) → read_of found ≡ contents s → found ≡ some s
found_cases none s h = absurd cc
found_cases (some t) s h = cc

lacks_cases : (found : Option String) → read_of found ≡ missing → found ≡ none
lacks_cases none h = refl
lacks_cases (some t) h = absurd cc

creates_cases :
    (found : Option String) (s : String)
    → (create_of found s).0 ≡ created
    → (create_of found s).1.drop_in ≡ some s
creates_cases none s h = refl
creates_cases (some t) s h = absurd cc

disk-IsHost : IsHost disk (file disk "app.service") (λ w. w.drop_in)
disk-IsHost = record {
  reads = λ w. refl;
  finds = λ s w h. found_cases w.drop_in s h;
  lacks = λ w h. lacks_cases w.drop_in h;
  writes = λ s w h. refl;
  creates = λ s w h. creates_cases w.drop_in s h;
}

ensure-Bound_example :
    let w : Disk = record { drop_in = none } in
    let (answer, w') = ensure disk "app.service" profile "/nix/store/a-app" w in
    let (failure, w'') = bind disk "app.service" profile "/nix/store/a-app" w in
    (BoundFor profile none → (w'.drop_in ≡ none) × (answer ≢ answered true))
    × Wrote (λ w. w.drop_in) profile (answer, w')
    × (failure ≡ none → BoundFor profile w''.drop_in)
unfolding has_char
ensure-Bound_example =
    ensure-Bound disk "app.service" profile (λ w. w.drop_in) disk-IsHost refl "/nix/store/a-app"
      (record { drop_in = none })

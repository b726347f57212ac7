-- ===== src/Reboot/Examples.antt =====
-- Runs of the window, the boot check and the verdict.
use tidewaiter.Common.{◌+◌, ◌-◌, ◌*◌, ◌%◌, ◌<◌, String, ◌≡◌, refl, ◌↔◌, true, [], ◌∷◌, ◌++◌, arith}
use tidewaiter.Reboot.{
  Window, window, parse_window, contains_time, Link, leads, NixOs, needed, Inputs, wait, reboot,
  decide,
}
use tidewaiter.Reboot.Times.{IsValid, duration, contains_time_iff, spell, parse_window-spell}
use tidewaiter.Reboot.Verdicts.{Due, decide-Due}

abbrev night : Window
night = record { start = 1380; end = 300 }

night-IsValid : IsValid night
night-IsValid = record { starts = omega arith; ends = omega arith; nonempty = omega arith }

contains_time_example :
    (contains_time night 2 30 ≡ true) ↔ ((2 * 60 + 30 + 1440 - 1380) % 1440 < duration night)
contains_time_example = contains_time_iff night 2 30 night-IsValid (omega arith) (omega arith)

parse_window-spell_example : parse_window (spell 1380 ++ b'-' ∷ spell 300) ≡ window night
parse_window-spell_example = parse_window-spell night night-IsValid

abbrev links : String → Link
links path = leads path

abbrev host : NixOs
host = record { booted = "/run/booted-system"; current = "/run/current-system" }

abbrev quiet : Inputs
quiet = record {
  needed = "kernel changed since boot";
  in_window = true;
  busy = [];
  unsettled = [];
  swapping = [];
}

abbrev busy : Inputs
busy = record quiet { busy = "app" ∷ [] }

busy_waits : (decide busy).kind ≡ wait
unfolding decide
busy_waits = refl

decide-Due_example : ((decide quiet).kind ≡ reboot) ↔ Due reboot quiet
decide-Due_example = decide-Due quiet reboot

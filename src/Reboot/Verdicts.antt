-- ===== src/Reboot/Verdicts.antt =====
-- The verdict of internal/reboot/reboot.go on what stands between the machine and a reboot.
use tidewaiter.Common.{◌≡◌, ◌≢◌, ◌↔◌, ◌⊎◌, true, false, [], arith, eq_iff}
use tidewaiter.Reboot.{Inputs, Kind, not_needed, wait, reboot, decide}

-- Nothing is swapping, in use or unsettled.
abbrev pub IsQuiet : Inputs → Type 0
IsQuiet input = (input.swapping ≡ []) × (input.busy ≡ []) × (input.unsettled ≡ [])

abbrev pub Due : Kind → Inputs → Type 0
Due not_needed input = input.needed ≡ ""
Due wait input = (input.needed ≢ "") × ((input.in_window ≡ false) ⊎ (¬ IsQuiet input))
Due reboot input = (input.needed ≢ "") × (input.in_window ≡ true) × IsQuiet input

-- A reboot is decided exactly when one is needed, inside the window, with nothing swapping, in use or
-- unsettled; it is not needed exactly when no reason is given; and otherwise it waits.
pub decide-Due : (input : Inputs) (kind : Kind) → ((decide input).kind ≡ kind) ↔ Due kind input
unfolding decide
decide-Due input not_needed = ground (arith, eq_iff input.needed "")
decide-Due input wait = ground (arith, eq_iff input.needed "")
decide-Due input reboot = ground (arith, eq_iff input.needed "")

-- ===== src/Detect/Examples.antt =====
-- Runs of the detectors.
use tidewaiter.Common.{◌≡◌, refl, ◌↔◌, ◌&&◌, true, [], ◌∷◌, Any, count}
use tidewaiter.Model.{PublishedPort, tcp}
use tidewaiter.Detect.{in_use_by, ConntrackEntry, is_live, conntrack, Sample}
use tidewaiter.Detect.Sessions.{IsSession, conntrack_iff}

abbrev web : PublishedPort
web = record { host_port = 8080; container_port = 80; protocol = tcp }

abbrev open_flow : ConntrackEntry
open_flow = record {
  protocol = tcp;
  destination_port = 8080;
  assured = true;
  state = "ESTABLISHED";
}

abbrev closing_flow : ConntrackEntry
closing_flow = record open_flow { state = "TIME_WAIT" }

conntrack_busy : conntrack (web ∷ []) (closing_flow ∷ open_flow ∷ []) ≡ in_use_by 1
unfolding conntrack
conntrack_busy = refl

conntrack_example :
    (((conntrack (web ∷ []) (closing_flow ∷ open_flow ∷ [])).in_use ≡ true)
      ↔ Any (IsSession (web ∷ [])) (closing_flow ∷ open_flow ∷ []))
    × ((conntrack (web ∷ []) (closing_flow ∷ open_flow ∷ [])).sessions
        ≡ count (λ e. is_live (web ∷ []) e && e.assured) (closing_flow ∷ open_flow ∷ []))
    × ((conntrack (web ∷ []) (closing_flow ∷ open_flow ∷ [])).confident ≡ true)
conntrack_example = conntrack_iff (web ∷ []) (closing_flow ∷ open_flow ∷ [])

abbrev earlier : Sample
earlier = record { bytes = 100; at = 0 }

abbrev later : Sample
later = record { bytes = 600; at = 2000000000 }

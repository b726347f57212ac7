-- ===== src/Daemon/Verdicts.antt =====
-- What the daemon of internal/daemon/daemon.go says is in use and unsettled, and what a tick and a
-- status write leave alone.
use tidewaiter.Common.{
  String, ◌≡◌, ◌↔◌, ◌⊎◌, Bool, true, false, List, [], ◌∷◌, Any, Elem, Map, arith, set_add,
  Elem-sort, Elem-set_add,
}
use tidewaiter.Daemon.State.{Verdicts, Daemon}
use tidewaiter.Daemon.Publish.{names_of, busy_names, unsettled_names, in_use, unsettled}

-- The map has the verdict for the workload.
abbrev pub Says : Bool → String → Map Bool → Type 0
Says b workload m = Any (λ e. (e.0 ≡ workload) × (e.1 ≡ b)) m

names_of_iff :
    (b : Bool) (x : String) (m : Map Bool) (names : List String)
    → Elem x (names_of b m names) ↔ (Says b x m ⊎ Elem x names)
names_of_iff b x [] names = ground arith
names_of_iff b x ((k, v) ∷ m) names =
    ground (
      arith,
      names_of_iff b x m names,
      names_of_iff b x m (set_add k names),
      Elem-set_add x k names,
    )

busy_names_iff :
    (x : String) (seen : Map Verdicts) (names : List String)
    → Elem x (busy_names seen names) ↔ (Any (λ e. Says true x e.1.busy) seen ⊎ Elem x names)
busy_names_iff x [] names = ground arith
busy_names_iff x ((s, v) ∷ seen) names =
    ground
      (arith, busy_names_iff x seen (names_of true v.busy names), names_of_iff true x v.busy names)

unsettled_names_iff :
    (x : String) (seen : Map Verdicts) (names : List String)
    → Elem x (unsettled_names seen names)
      ↔ (Any (λ e. Says false x e.1.settled) seen ⊎ Elem x names)
unsettled_names_iff x [] names = ground arith
unsettled_names_iff x ((s, v) ∷ seen) names = ground (
  arith,
  unsettled_names_iff x seen (names_of false v.settled names),
  names_of_iff false x v.settled names,
)

-- The workloads in use are exactly those that some source's last verdicts have as busy, and the
-- unsettled ones those that some source's last pass has as not settled.
pub in_use_iff :
    (d : Daemon) (x : String)
    → (Elem x (in_use d) ↔ Any (λ e. Says true x e.1.busy) d.seen)
      × (Elem x (unsettled d) ↔ Any (λ e. Says false x e.1.settled) d.seen)
unfolding in_use unsettled
in_use_iff d x = ground (
  arith,
  Elem-sort x (busy_names d.seen []),
  busy_names_iff x d.seen [],
  Elem-sort x (unsettled_names d.seen []),
  unsettled_names_iff x d.seen [],
)

-- ===== src/Health/Checks/Serving.antt =====
-- `port-bound` and `uptime` of internal/health/checks.go: what it takes to pass, and to fail.
use tidewaiter.Common.{
  ℕ, ◌-◌, ◌*◌, ◌≤◌, ◌≡◌, refl, ◌≢◌, ◌↔◌, ◌⊎◌, inl, inr, Bool, true, false, Option, none, some, List,
  [], ◌∷◌, All, Any, arith, Option-cases, is_empty,
}
use tidewaiter.Model.{Protocol, tcp, udp, PublishedPort}
use tidewaiter.Health.{inconclusive, pass, fail, skip, Outcome}
use tidewaiter.Health.Checks.{
  Input, BoundPorts, second, first_sight, wanted, holds_port, any_held, any_port_bound_in,
  any_port_bound, port_bound, uptime,
}

-- Whether a socket is bound on the port, by the sockets of its protocol; `none` where these could
-- not be read.
abbrev pub reading : BoundPorts → PublishedPort → Option Bool
reading bound p = elim (bound p.protocol) [
  | none ↦ none
  | some listening ↦ some (holds_port p.container_port listening)
]

module _ (bound : BoundPorts) (protocol : Protocol) where
  any_held-bound :
      (ports : List PublishedPort) (l : List ℕ)
      → bound protocol ≡ some l
      → any_held (wanted protocol ports) l ≡ true
      → Any (λ p. reading bound p ≡ some true) ports
  any_held-bound [] l b h = cc
  any_held-bound (p ∷ ps) l b h = ground (arith, any_held-bound ps l b)

  any_held-unbound :
      (ports : List PublishedPort) (l : List ℕ)
      → bound protocol ≡ some l
      → any_held (wanted protocol ports) l ≡ false
      → All (λ p. p.protocol ≡ protocol → reading bound p ≡ some false) ports
  any_held-unbound [] l b h = tt
  any_held-unbound (p ∷ ps) l b h = ground (arith, any_held-unbound ps l b)

  unwanted :
      (ports : List PublishedPort)
      → is_empty (wanted protocol ports) ≡ true
      → All (λ p. p.protocol ≢ protocol) ports
  unwanted [] h = tt
  unwanted (p ∷ ps) h = ground (arith, unwanted ps)

  wanted_unread :
      (ports : List PublishedPort)
      → is_empty (wanted protocol ports) ≡ false
      → bound protocol ≡ none
      → Any (λ p. reading bound p ≡ none) ports
  wanted_unread [] h b = cc
  wanted_unread (p ∷ ps) h b = ground (arith, wanted_unread ps)

-- Both protocols' ports read as unbound make every port read so.
both_unbound :
    (bound : BoundPorts) (ports : List PublishedPort)
    → All (λ p. p.protocol ≡ tcp → reading bound p ≡ some false) ports
    → All (λ p. p.protocol ≡ udp → reading bound p ≡ some false) ports
    → All (λ p. reading bound p ≡ some false) ports
both_unbound bound [] t u = tt
both_unbound bound (p ∷ ps) t u = ground (arith, both_unbound bound ps t.1 u.1)

-- No port of the protocol in scope: any claim about its ports holds.
none_in_scope :
    (bound : BoundPorts) (protocol : Protocol) (ports : List PublishedPort)
    → is_empty (wanted protocol ports) ≡ true
    → All (λ p. p.protocol ≡ protocol → reading bound p ≡ some false) ports
none_in_scope bound protocol [] h = tt
none_in_scope bound protocol (p ∷ ps) h = ground (arith, none_in_scope bound protocol ps)

-- What the answer says of the ports in scope: some is bound, none is and all could be read, or some
-- could not be read.
abbrev pub Reads : Option Bool → BoundPorts → List PublishedPort → Type 0
Reads (some true) bound ports = Any (λ p. reading bound p ≡ some true) ports
Reads (some false) bound ports = All (λ p. reading bound p ≡ some false) ports
Reads none bound ports = Any (λ p. reading bound p ≡ none) ports

-- One protocol of the loop, by the answer.
abbrev Protocol-Reads : Option Bool → Input → Protocol → List Protocol → Type 0
Protocol-Reads (some true) input protocol rest =
    Any (λ p. reading input.bound p ≡ some true) input.ports
    ⊎ (any_port_bound_in rest input ≡ some true)
Protocol-Reads (some false) input protocol rest =
    All (λ p. p.protocol ≡ protocol → reading input.bound p ≡ some false) input.ports
    × (any_port_bound_in rest input ≡ some false)
Protocol-Reads none input protocol rest =
    Any (λ p. reading input.bound p ≡ none) input.ports ⊎ (any_port_bound_in rest input ≡ none)

protocol-reads :
    (input : Input) (protocol : Protocol) (rest : List Protocol) (answer : Option Bool)
    → any_port_bound_in (protocol ∷ rest) input ≡ answer
    → Protocol-Reads answer input protocol rest
protocol-reads input protocol rest (some true) h = elim (Option-cases (input.bound protocol)) [
  | inl e ↦ ground arith
  | inr (l, e) ↦ ground (arith, any_held-bound input.bound protocol input.ports l e)
]
protocol-reads input protocol rest (some false) h = elim (Option-cases (input.bound protocol)) [
  | inl e ↦ ground (arith, none_in_scope input.bound protocol input.ports)
  | inr (l, e) ↦ ground (
    arith,
    none_in_scope input.bound protocol input.ports,
    any_held-unbound input.bound protocol input.ports l e,
  )
]
protocol-reads input protocol rest none h = elim (Option-cases (input.bound protocol)) [
  | inl e ↦ ground (arith, wanted_unread input.bound protocol input.ports)
  | inr (l, e) ↦ ground arith
]

-- The answer over both protocols is right: yes only if a port in scope is bound, no only if none is
-- and every port's sockets could be read, and unknown only if some could not be.
pub any_port_bound-Reads :
    (input : Input) (answer : Option Bool)
    → any_port_bound input ≡ answer
    → Reads answer input.bound input.ports
unfolding any_port_bound
any_port_bound-Reads input (some true) h = ground (
  arith,
  protocol-reads input tcp (udp ∷ []) (some true) h,
  protocol-reads input udp [] (some true),
)
any_port_bound-Reads input (some false) h =
    let (t, later) = protocol-reads input tcp (udp ∷ []) (some false) h in
    both_unbound input.bound input.ports t (protocol-reads input udp [] (some false) later).0
any_port_bound-Reads input none h =
    ground (arith, protocol-reads input tcp (udp ∷ []) none h, protocol-reads input udp [] none)

-- A time that a check counts from: what it remembers, or now where it remembers none.
abbrev pub CountsFrom : Option ℕ → ℕ → ℕ → Type 0
CountsFrom seen now since = (seen ≡ some since) ⊎ ((seen ≡ none) × (since ≡ now))

first_sight-CountsFrom : (seen : Option ℕ) (now : ℕ) → CountsFrom seen now (first_sight seen now)
first_sight-CountsFrom none now = inr (refl, refl)
first_sight-CountsFrom (some since) now = inl refl

-- What each outcome of `uptime` rests on, for a running subject counted from `since`: a failure, on one
-- that is not running, or one up for the grace with ports in scope of which every one's sockets were read
-- and none is bound; a pass, on one up for the grace with no ports, or with a bound one.
abbrev pub Uptime-Rests : Outcome → ℕ → ℕ → Input → ℕ → Type 0
Uptime-Rests fail seconds now input since =
    (input.subject.running ≡ false)
    ⊎ ((seconds * second ≤ now - since)
        × (input.ports ≢ [])
        × All (λ p. reading input.bound p ≡ some false) input.ports)
Uptime-Rests pass seconds now input since =
    (input.subject.running ≡ true)
    × (seconds * second ≤ now - since)
    × ((input.ports ≡ []) ⊎ Any (λ p. reading input.bound p ≡ some true) input.ports)
Uptime-Rests inconclusive seconds now input since = input.subject.running ≡ true
Uptime-Rests skip seconds now input since = ⊥

-- `uptime` fails a subject only when it is not running, or when after the grace it has ports in scope
-- and, with all their sockets read, none is bound; it passes only one that runs after the grace and
-- has no ports in scope or a bound one; it never skips. The grace is counted from the time that it
-- remembers, or from now where it remembers none; and it remembers that time from then on, which only a
-- running subject sets and no later evaluation changes.
pub uptime-Rests :
    (seconds now : ℕ) (input : Input) (seen : Option ℕ)
    → (since : ℕ) × CountsFrom seen now since
      × Uptime-Rests (uptime seconds now input seen).0.outcome seconds now input since
      × (input.subject.running ≡ true → (uptime seconds now input seen).1 ≡ some since)
      × (input.subject.running ≡ false → (uptime seconds now input seen).1 ≡ seen)
unfolding uptime
uptime-Rests seconds now input seen = (
  first_sight seen now,
  first_sight-CountsFrom seen now,
  ground (arith, any_port_bound-Reads input (some true), any_port_bound-Reads input (some false)),
  (λ r. ground arith),
  (λ r. ground arith),
)

-- `port-bound` never fails: it passes only when a port in scope is bound, skips exactly when there is
-- none in scope, and otherwise waits.
pub port_bound-Reads :
    (input : Input)
    → ((port_bound input).outcome ≢ fail)
      × ((port_bound input).outcome ≡ pass
          → Any (λ p. reading input.bound p ≡ some true) input.ports)
      × (((port_bound input).outcome ≡ skip) ↔ (input.ports ≡ []))
unfolding port_bound
port_bound-Reads input = ground (arith, any_port_bound-Reads input (some true))

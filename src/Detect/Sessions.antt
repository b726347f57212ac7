-- ===== src/Detect/Sessions.antt =====
-- What the detectors of internal/detect see, and how their verdicts combine.
use tidewaiter.Common.{
  ℕ, ◌+◌, ◌-◌, ◌*◌, ◌≤◌, ◌<◌, String, ◌≡◌, refl, ◌↔◌, ◌⊎◌, inl, inr, Option-cases, true, some, List,
  [], ◌∷◌, Any, count, ◌&&◌, ◌||◌, Map, lookup, if◌then◌else◌, arith,
}
use tidewaiter.Model.{Protocol, PublishedPort}
use tidewaiter.Detect.{
  Result, combine, any_in_use, tally, ConntrackEntry, is_active, is_live, publishes, flows,
  conntrack, Sample, netio, idle, same_use, confident_idle,
}

-- A flow of a session: to a published port of the host, not closing or closed.
abbrev pub IsSession : List PublishedPort → ConntrackEntry → Type 0
IsSession ports e =
    Any (λ p. (p.protocol ≡ e.protocol) × (p.host_port ≡ e.destination_port)) ports
    × (is_active e ≡ true)

publishes_iff :
    (ports : List PublishedPort) (protocol : Protocol) (port : ℕ)
    → (publishes ports protocol port ≡ true)
      ↔ Any (λ p. (p.protocol ≡ protocol) × (p.host_port ≡ port)) ports
publishes_iff [] protocol port = (λ e. cc, λ h. elim h [ ])
publishes_iff (p ∷ ps) protocol port = ground (arith, publishes_iff ps protocol port)

is_live_iff :
    (ports : List PublishedPort) (e : ConntrackEntry) → (is_live ports e ≡ true) ↔ IsSession ports e
is_live_iff ports e = ground (arith, publishes_iff ports e.protocol e.destination_port)

flows-IsSession :
    (ports : List PublishedPort) (es : List ConntrackEntry)
    → (0 < (flows ports es).0) ↔ Any (IsSession ports) es
flows-IsSession ports [] = (λ h. omega arith, λ h. elim h [ ])
flows-IsSession ports (e ∷ es) = ground (arith, is_live_iff ports e, flows-IsSession ports es)

flows-assured :
    (ports : List PublishedPort) (es : List ConntrackEntry)
    → ((flows ports es).1 ≤ (flows ports es).0)
      × ((flows ports es).1 ≡ count (λ e. is_live ports e && e.assured) es)
flows-assured ports [] = (omega arith, refl)
flows-assured ports (e ∷ es) = ground (arith, flows-assured ports es)

-- The conntrack detector says in use exactly when the table has a flow of a session, assured or not,
-- over a published port of the host; its sessions are the assured flows among these; and its verdict
-- is always confident.
pub conntrack_iff :
    (ports : List PublishedPort) (es : List ConntrackEntry)
    → (((conntrack ports es).in_use ≡ true) ↔ Any (IsSession ports) es)
      × ((conntrack ports es).sessions ≡ count (λ e. is_live ports e && e.assured) es)
      × ((conntrack ports es).confident ≡ true)
unfolding conntrack
conntrack_iff ports es = ground (arith, flows-IsSession ports es, flows-assured ports es)

any_in_use_iff : (rs : List Result) → (any_in_use rs ≡ true) ↔ Any (λ r. r.in_use ≡ true) rs
any_in_use_iff [] = (λ e. cc, λ h. elim h [ ])
any_in_use_iff (r ∷ rs) = ground (arith, any_in_use_iff rs)

-- The sessions that were counted.
abbrev pub total_sessions : List Result → ℕ
total_sessions [] = 0
total_sessions (r ∷ rs) = (if r.counted then r.sessions else 0) + total_sessions rs

tally_lem :
    (rs : List Result) (c : Result)
    → ((tally rs c).in_use ≡ c.in_use)
      × ((tally rs c).sessions ≡ c.sessions + total_sessions rs)
      × (((tally rs c).confident ≡ true)
          ↔ ((c.confident ≡ true) ⊎ Any (λ r. (r.in_use ≡ c.in_use) × (r.confident ≡ true)) rs))
tally_lem [] c = ground arith
tally_lem (r ∷ rs) c = ground (
  arith,
  tally_lem rs (record c {
    confident = c.confident || (same_use r.in_use c.in_use && r.confident);
    counted = c.counted || r.counted;
    sessions = if r.counted then c.sessions + r.sessions else c.sessions;
  }),
)

-- Detectors combine conservatively: in use exactly when some detector says so, with the sum of the
-- sessions that were counted, and confident exactly when a confident detector gave that verdict.
pub combine_lem :
    (rs : List Result)
    → (((combine rs).in_use ≡ true) ↔ Any (λ r. r.in_use ≡ true) rs)
      × ((combine rs).sessions ≡ total_sessions rs)
      × (((combine rs).confident ≡ true)
          ↔ Any (λ r. (r.in_use ≡ (combine rs).in_use) × (r.confident ≡ true)) rs)
unfolding combine
combine_lem rs =
    let t = tally_lem rs (record idle { in_use = any_in_use rs }) in
    rw t.0 (any_in_use_iff rs, ground (arith, t), ground (arith, t))

-- The byte rate between two samples is at the threshold or below it.
abbrev pub IsSlow : ℕ → Sample → Sample → Type 0
IsSlow threshold prior now =
    (prior.at < now.at)
    × (prior.bytes ≤ now.bytes)
    × ((now.bytes - prior.bytes) * 1000000000 ≤ threshold * (now.at - prior.at))

-- The byte rate reads as idle exactly when there is an earlier sample of the workload, the clock has
-- moved on, the count has not gone back, and the rate between the two is at the threshold or below.
pub netio-idle :
    (threshold : ℕ) (id : String) (now : Sample) (previous : Map Sample)
    → ((netio threshold id (some now) previous).0 ≡ some confident_idle)
      ↔ ((prior : Sample) × (lookup id previous ≡ some prior) × IsSlow threshold prior now)
unfolding netio
netio-idle threshold id now previous = elim (Option-cases (lookup id previous)) [
  | inl e ↦ (λ h. absurd (ground arith), λ h. absurd (ground arith))
  | inr (prior, e) ↦ (λ h. (prior, e, ground arith), λ h. ground arith)
]

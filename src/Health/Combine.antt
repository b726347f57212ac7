-- ===== src/Health/Combine.antt =====
-- The rule of `Combine` in internal/health/health.go, and the grace of `UptimeSeconds`.
use tidewaiter.Common.{
  ℕ, ◌≤◌, ◌<◌, ◌≡◌, ◌↔◌, ◌⊎◌, Bool, true, false, Option, none, some, List, [], ◌∷◌, All, Any, Elem,
  arith, refl, inl, inr, Option-cases,
}
use tidewaiter.Health.{
  inconclusive, pass, fail, skip, Result, Verdict, commit, first_fail, any_inconclusive, combine,
  uptime_seconds,
}

abbrev pub Failing : Result → Type 0
Failing r = r.outcome ≡ fail

abbrev pub Undecided : Result → Type 0
Undecided r = r.outcome ≡ inconclusive

-- Every check passed or did not apply.
abbrev pub Settled : Result → Type 0
Settled r = (r.outcome ≡ pass) ⊎ (r.outcome ≡ skip)

pub first_fail-none : (rs : List Result) → (first_fail rs ≡ none) ↔ All (λ r. ¬ Failing r) rs
first_fail-none [] = (λ e. tt, λ h. refl)
first_fail-none (r ∷ rs) = ground (arith, first_fail-none rs)

-- A result that the loop finds is a failure among the results.
pub first_fail-some :
    (rs : List Result) (r : Result)
    → first_fail rs ≡ some r
    → Failing r × Elem r rs × Any Failing rs
first_fail-some [] r e = cc
first_fail-some (x ∷ rs) r e = ground (arith, first_fail-some rs r)

pub any_inconclusive_iff : (rs : List Result) → (any_inconclusive rs ≡ true) ↔ Any Undecided rs
any_inconclusive_iff [] = (λ e. cc, λ h. elim h [ ])
any_inconclusive_iff (r ∷ rs) = ground (arith, any_inconclusive_iff rs)

-- With no failure and nothing inconclusive, every check passed or was skipped.
pub All-Settled :
    (rs : List Result) → first_fail rs ≡ none → any_inconclusive rs ≡ false → All Settled rs
All-Settled [] e h = tt
All-Settled (r ∷ rs) e h = ground (arith, All-Settled rs)

-- What a gate's conclusion says of the results: to poll on, that the deadline has not passed, none
-- failed and some is undecided; to roll back, that some failed; to commit, that none failed, and that
-- the deadline passed or every check passed or was skipped.
abbrev pub Says : Option Verdict → List Result → Bool → Type 0
Says none rs timed_out = (timed_out ≡ false) × All (λ r. ¬ Failing r) rs × Any Undecided rs
Says (some v) rs timed_out =
    ((v.healthy ≡ false) × Any Failing rs)
    ⊎ ((v ≡ commit) × All (λ r. ¬ Failing r) rs × ((timed_out ≡ true) ⊎ All Settled rs))

-- A failing check rolls back, at once and at the deadline, and nothing else ever does; with no
-- failure a gate at its deadline commits, and before it commits when every check passed or was
-- skipped, and otherwise polls on.
pub combine-Says : (rs : List Result) (timed_out : Bool) → Says (combine rs timed_out) rs timed_out
unfolding combine
combine-Says rs timed_out = elim (Option-cases (first_fail rs)) [
  | inr (r, e) ↦ rw (Says, e) (inl (refl, (first_fail-some rs r e).2))
  | inl e ↦ ground (arith, first_fail-none rs, any_inconclusive_iff rs, All-Settled rs)
]

-- The grace lies between two seconds and thirty, and ends before the gate's own deadline exactly
-- when the health timeout is three seconds or more.
pub uptime_seconds_bounds :
    (timeout : ℕ)
    → (2 ≤ uptime_seconds timeout)
      × (uptime_seconds timeout ≤ 30)
      × ((uptime_seconds timeout < timeout) ↔ (3 ≤ timeout))
unfolding uptime_seconds
uptime_seconds_bounds timeout = (omega arith, omega arith, (λ h. omega arith, λ h. omega arith))

-- ===== src/Daemon/Reads.antt =====
-- What a reader of the status makes of it: IsStale and IsBusy of internal/status/status.go. Times are
-- seconds.
use tidewaiter.Common.{
  ℕ, ◌-◌, ◌*◌, ◌<◌, String, ◌≡◌, refl, ◌↔◌, ◌⊎◌, inl, inr, Bool, true, not, ◌&&◌, ◌||◌, List, [],
  ◌∷◌, ltb, is_empty, Any, Elem, Elem-sort, sort, arith,
}
use tidewaiter.Daemon.State.{Status, Daemon, Deps}
use tidewaiter.Daemon.Publish.{snapshot, in_use, swapping}
use tidewaiter.Daemon.Verdicts.{Says, in_use_iff}

-- `IsStale` at a time.
unfoldable pub is_stale : Status → ℕ → Bool
is_stale status now = ltb 0 status.stale_after && ltb status.stale_after (now - status.updated)

-- `IsBusy`.
unfoldable pub is_busy : Status → Bool
is_busy status = not (is_empty status.busy) || not (is_empty status.swapping)

either_iff :
    (xs ys : List String)
    → ((not (is_empty xs) || not (is_empty ys)) ≡ true)
      ↔ (((x : String) × Elem x xs) ⊎ ((x : String) × Elem x ys))
either_iff [] [] = (λ e. absurd cc, λ h. elim h [ inl (x, m) ↦ absurd m | inr (x, m) ↦ absurd m ])
either_iff [] (y ∷ ys) = (λ e. inr (y, inl refl), λ h. refl)
either_iff (x ∷ xs) ys = (λ e. inl (x, inl refl), λ h. refl)

-- A status that the daemon writes reads as busy exactly when some source's last verdicts have some
-- workload as busy, or some workload is held; and it reads as stale only once more than a minute has
-- passed, and more than four ticks, and always then.
pub snapshot-reads :
    {W : Type 0} (deps : Deps W) (d : Daemon) (w : W) (later : ℕ)
    → ((is_busy (snapshot deps d w) ≡ true) ↔ (
        ((x : String) × Any (λ e. Says true x e.1.busy) d.seen) ⊎ ((x : String) × Elem x d.held)))
      × ((is_stale (snapshot deps d w) later ≡ true)
          ↔ ((60 < later - deps.now w) × (4 * deps.activity_interval < later - deps.now w)))
unfolding is_busy is_stale snapshot swapping
snapshot-reads deps d w later = (
  (
    λ h. elim ((either_iff (in_use d) (sort d.held)).0 h) [
      | inl (x, m) ↦ inl (x, (in_use_iff d x).0.0 m)
      | inr (x, m) ↦ inr (x, (Elem-sort x d.held).0 m)
    ],
    λ h. (either_iff (in_use d) (sort d.held)).1 (elim h [
      | inl (x, m) ↦ inl (x, (in_use_iff d x).0.1 m)
      | inr (x, m) ↦ inr (x, (Elem-sort x d.held).1 m)
    ]),
  ),
  ground arith,
)

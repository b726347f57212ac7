-- ===== src/Docker/Pins.antt =====
-- When the update of internal/docker/source.go pins a digest out.
use tidewaiter.Common.{
  ℕ, zero, suc, ◌≤◌, String, ◌≡◌, refl, ap, ◌∙◌, ◌≢◌, ◌⊎◌, inl, inr, Bool, true, false, Option,
  if◌then◌else◌, str_eq, eq_iff, leb, arith,
}
use tidewaiter.Decide
use tidewaiter.Docker.State.{Policy, Image, Memory, Kept, Deps}
use tidewaiter.Docker.Update.{swap_failed}
use tidewaiter.Docker.Reconcile.{still_pinned, adopt, decision}

-- So many swaps to one digest that each failed at a step, with the pass's own clearing of a stale pin
-- before each.
abbrev pub failing_swaps : ℕ → Memory → Option Image → String → Memory
failing_swaps zero m leaving desired = m
failing_swaps (suc n) m leaving desired =
    swap_failed (still_pinned desired (failing_swaps n m leaving desired)) leaving desired

still_pinned-same :
    (desired : String) (m : Memory)
    → (m.pinned ≡ "") ⊎ (m.pinned ≡ desired)
    → still_pinned desired m ≡ m
still_pinned-same desired m h = ground (arith, eq_iff m.pinned "", eq_iff m.pinned desired)

-- What a count of failures says of the memory.
record Counts (n : ℕ) (desired : String) (m : Memory) : Type 0 where
  swap_failures : m.swap_failures ≡ n
  failing : m.failing ≡ desired
  pinned : m.pinned ≡ (if leb 3 n then desired else "")

first_failure :
    (m : Memory) (leaving : Option Image) (desired : String)
    → m.failing ≢ desired
    → m.pinned ≡ ""
    → Counts 1 desired (swap_failed m leaving desired)
unfolding swap_failed
first_failure m leaving desired other free =
    let e : str_eq m.failing desired ≡ false = ground (arith, eq_iff m.failing desired) in
    record { swap_failures = rw e refl; failing = refl; pinned = rw e free }

next_failure :
    (n : ℕ) (m : Memory) (leaving : Option Image) (desired : String)
    → Counts (suc n) desired m
    → Counts (suc (suc n)) desired (swap_failed m leaving desired)
unfolding swap_failed
next_failure n m leaving desired c =
    let e : str_eq m.failing desired ≡ true = ground (arith, eq_iff m.failing desired, c.failing) in
    record {
      swap_failures = rw (e, c.swap_failures) refl;
      failing = refl;
      pinned = rw (e, c.swap_failures, c.pinned) (ground arith);
    }

Counts-pin :
    (n : ℕ) (desired : String) (m : Memory)
    → Counts n desired m
    → (m.pinned ≡ "") ⊎ (m.pinned ≡ desired)
Counts-pin n desired m c = ground (arith, c.pinned)

failing_swaps-Counts :
    (n : ℕ) (m : Memory) (leaving : Option Image) (desired : String)
    → m.failing ≢ desired
    → m.pinned ≡ ""
    → Counts (suc n) desired (failing_swaps (suc n) m leaving desired)
failing_swaps-Counts zero m leaving desired other free =
    rw (still_pinned-same desired m (inl free)) (first_failure m leaving desired other free)
failing_swaps-Counts (suc n) m leaving desired other free =
    let c = failing_swaps-Counts n m leaving desired other free in
    let before = failing_swaps (suc n) m leaving desired in
    rw (still_pinned-same desired before (Counts-pin (suc n) desired before c))
      (next_failure n before leaving desired c)

pin_test : (n : ℕ) (desired : String) → 3 ≤ n → (if leb 3 n then desired else "") ≡ desired
pin_test n desired h = ground arith

pinned-decided :
    {W : Type 0} (deps : Deps W) (policy : Policy) (m : Memory) (desired current : String)
    (in_use : Bool) (streak : ℕ)
    → m.pinned ≡ desired
    → desired ≢ ""
    → (decision deps policy m desired current in_use streak).kind ≡ Decide.pinned
unfolding Decide.decide
pinned-decided deps policy m desired current in_use streak e given =
    ground (arith, eq_iff m.pinned "", eq_iff m.pinned desired)

adopt-pin :
    (name current desired : String) (m : Memory) (k : Kept)
    → (adopt name current desired (m, k)).0.pinned ≡ m.pinned
adopt-pin name current desired m k = ground arith

-- Swaps to one digest that each fail at a step are counted, and none of the first two pins anything;
-- from the third on the digest is pinned out, and a later pass that still desires it, whatever it samples
-- and whatever image it finds, still has it pinned out after its own look at the pin and at the baseline,
-- and decides it pinned.
-- It is asked that the digest is given, that none is pinned before and that the failures before were
-- to another.
pub failing_swaps_lem :
    {W : Type 0} (deps : Deps W) (n : ℕ) (m : Memory) (leaving : Option Image) (policy : Policy)
    (desired current name : String) (k : Kept) (in_use : Bool) (streak : ℕ)
    → m.failing ≢ desired
    → m.pinned ≡ ""
    → desired ≢ ""
    → let after = failing_swaps (suc n) m leaving desired in
      (after.swap_failures ≡ suc n)
      × (after.pinned ≡ (if leb 3 (suc n) then desired else ""))
      × (3 ≤ suc n
          → let (later, k') = adopt name current desired (still_pinned desired after, k) in
            (later.pinned ≡ desired)
            × ((decision deps policy later desired current in_use streak).kind ≡ Decide.pinned))
failing_swaps_lem deps n m leaving policy desired current name k in_use streak other free given =
    let c = failing_swaps-Counts n m leaving desired other free in
    (
      c.swap_failures,
      c.pinned,
      λ h.
          let after = failing_swaps (suc n) m leaving desired in
          let pin = c.pinned ∙ pin_test (suc n) desired h in
          let later = (adopt name current desired (still_pinned desired after, k)).0 in
          let still =
            adopt-pin name current desired (still_pinned desired after) k
            ∙ ap (λ x. x.pinned) (still_pinned-same desired after (inr pin))
            ∙ pin in
          (still, pinned-decided deps policy later desired current in_use streak still given),
    )

-- ===== src/Systemd/Sight.antt =====
-- `firstSight` and `resumeSwap` of internal/systemd/source.go: the first look at a unit since the daemon
-- started. What comes after them is an argument, as they may stop for the daemon to hold the unit.
use tidewaiter.Common.{
  ℕ, String, ◌+s◌, Bool, not, ◌&&◌, ◌||◌, Option, none, some, delete, if◌then◌else◌, str_eq, ltb,
  ◌==◌, decimal,
}
use tidewaiter.Decide
use tidewaiter.Health.{Verdict}
use tidewaiter.Source.{Answer, answered, errored, Run, holding}
use tidewaiter.Systemd.Unit.{UnitState, JobResult, is_up, is_stopped}
use tidewaiter.Systemd.Settings.{Policy}
use tidewaiter.Systemd.State.{
  SwapRecord, UnitMemory, Kept, State, Deps, say, memory_of, remember, generation_ref,
  generation_of, Call, ◌>>◌,
}
use tidewaiter.Systemd.Gate.{gate}
use tidewaiter.Systemd.Swap.{cleared, pinned_out, save, switch_back, when, rebind, roll_back}
use tidewaiter.Systemd.Update.{said_prune}

-- A swap that was interrupted is over: kept as it is, or rolled back.
abbrev pub left_alone : String → Option Decide.Action
left_alone why = some (Decide.plain Decide.keep why)

abbrev pub rolled_back_action : Option Decide.Action
rolled_back_action = some (Decide.plain Decide.pinned "rolled back an interrupted swap")

abbrev pub target_or_none : Answer String → String
target_or_none (answered t) = t
target_or_none (errored e) = ""

-- What a version that passed its gate leaves.
abbrev pub gone_good : ℕ → UnitMemory → UnitMemory
gone_good n m = record m {
  good = generation_ref n;
  pinned = "";
  failing = "";
  swap_failures = 0;
  swapping = none;
}

-- The unit still runs what it ran before the swap, or someone stopped it.
abbrev pub can_put_back : SwapRecord → UnitState → Bool
can_put_back r state =
    str_eq state.invocation_id r.invocation_id
    || (is_stopped state && not (str_eq state.active_state "failed"))

-- The restart happened, and its gate did not.
abbrev pub can_gate : SwapRecord → UnitState → ℕ → Bool
can_gate r state n =
    not (str_eq state.active_state "failed")
    && (generation_of r.from == 0 || not (n == generation_of r.from))

-- A generation that is newer than the last good one, and failed.
abbrev pub is_interrupted : UnitState → ℕ → ℕ → Bool
is_interrupted state good n = str_eq state.active_state "failed" && not (good == 0) && ltb good n

module _ {W : Type 0} (deps : Deps W) where
  open deps use {dry_run, target, prune}

  abbrev pub Next : Type 0
  Next = Answer (Option Decide.Action) → State W → Run (State W)

  -- `finish`.
  unfoldable pub finish : String → (UnitMemory → UnitMemory) → State W → State W
  finish unit changed (k, w) =
      (save deps (remember unit (cleared (changed (memory_of unit k))) k, w)).1

  abbrev pub said_put_back : Policy → SwapRecord → UnitState → Kept → Kept
  said_put_back policy r state k =
      if str_eq state.invocation_id r.invocation_id
      then say
          (policy.unit +s ": a swap to " +s r.to +s " was interrupted before the restart; putting "
            +s policy.profile +s " back")
          k
      else k

  -- The steps that put the profile back, without a restart.
  unfoldable pub put_back_steps : Policy → SwapRecord → ℕ → Call W (Unit {0})
  unfolding switch_back
  put_back_steps policy r n =
      let from = generation_of r.from in
      when deps (not (from == 0) && not (n == 0) && not (n == from))
        (switch_back deps policy.profile from)
      >> when deps (policy.bind_closure && not (str_eq r.from_target ""))
          (rebind deps policy r.from_target)

  unfoldable pub put_back : Policy → SwapRecord → UnitState → ℕ → Call W (Option Decide.Action)
  unfolding put_back_steps
  put_back policy r state n (k, w) =
      let (answer, (k', w')) = put_back_steps policy r n (said_put_back policy r state k, w) in
      elim answer [
        | errored e ↦ (
          answered (left_alone "interrupted swap not yet undone"),
          (
            say
                (policy.unit +s ": could not put " +s policy.profile +s " back (" +s e
                  +s "); trying again next pass")
                (record k' { seen = delete policy.unit k'.seen }),
            w',
          ),
        )
        | answered _ ↦ (answered none, finish policy.unit (λ m. m) (k', w'))
      ]

  unfoldable pub give_back : Policy → SwapRecord → State W → Answer (Option Decide.Action) × State W
  give_back policy r s =
      let s' = roll_back deps policy (generation_of r.from) r.from_target s in
      (answered rolled_back_action, finish policy.unit (pinned_out r.to) s')

  -- A version whose gate is made up for, and found it healthy.
  unfoldable pub made_good : Policy → SwapRecord → ℕ → State W → State W
  made_good policy r n (k, w) =
      let (failure, w') = prune policy.profile policy.keep_generations w in
      let k' = said_prune policy.unit failure k in
      finish policy.unit (gone_good n)
        (say (policy.unit +s ": updated to " +s r.to +s " and it is healthy") k', w')

  abbrev pub regated :
      Policy → SwapRecord → ℕ → Answer Verdict × State W → Answer (Option Decide.Action) × State W
  regated policy r n (errored e, s) = (errored e, s)
  regated policy r n (answered v, (k, w)) =
      if v.healthy
      then (answered none, made_good policy r n (k, w))
      else give_back policy r (
        say (policy.unit +s ": the new version is unhealthy (" +s v.reason +s "); rolling back") k,
        w,
      )

  -- `resumeSwap` from `pass.Hold` on.
  unfoldable pub held : Policy → SwapRecord → UnitState → ℕ → Call W (Option Decide.Action)
  unfolding made_good give_back
  held policy r state n (k, w) =
      if can_gate r state n
      then (let told =
            say
              (policy.unit +s ": a swap to " +s r.to
                +s " was interrupted after the restart; gating it now")
              k in
          regated policy r n (gate deps policy JobResult.done (told, w)))
      else give_back policy r (
        say
            (policy.unit +s ": a swap to " +s r.to +s " was interrupted and the unit is "
              +s state.active_state +s "; rolling back")
            k,
        w,
      )

  -- A call's answer, given to what comes next.
  abbrev pub and_then : Next → Call W (Option Decide.Action) → State W → Run (State W)
  and_then next call s = let (answer, s') = call s in next answer s'

  -- `resumeSwap`.
  unfoldable pub resume_swap : Policy → SwapRecord → UnitState → ℕ → Next → State W → Run (State W)
  unfolding put_back held
  resume_swap policy r state n next (k, w) =
      if dry_run
      then next (answered (left_alone "interrupted swap left alone in a dry run")) (
        say
            (policy.unit +s ": a swap to " +s r.to
              +s " was interrupted; leaving it as it is (dry run)")
            k,
        w,
      )
      else if can_put_back r state
      then and_then next (put_back policy r state n) (k, w)
      else holding (k, w) policy.unit (and_then next (held policy r state n))

  -- A unit that is up is adopted as it is.
  unfoldable pub adopt : Policy → ℕ → State W → State W
  adopt policy n (k, w) =
      let m = memory_of policy.unit k in
      let good = generation_of m.good in
      let told =
        if not (good == 0) && not (good == n)
        then say
            (policy.unit
              +s ": adopting generation "
              +s decimal n
              +s " of "
              +s policy.profile
              +s " as the baseline (no record of it going in)")
            k
        else k in
      if good == n
      then (told, w)
      else (save deps (remember policy.unit (record m { good = generation_ref n }) told, w)).1

  -- `firstSight` from its `pass.Hold` on.
  unfoldable pub fall_back : Policy → String → ℕ → Call W (Option Decide.Action)
  fall_back policy current good (k, w) =
      let (answer, w1) = target policy.profile good w in
      let (k2, w2) = roll_back deps policy good (target_or_none answer) (k, w1) in
      if str_eq current "" then (answered rolled_back_action, (k2, w2)) else (
        answered rolled_back_action,
        (save deps (
          remember policy.unit (record (memory_of policy.unit k2) { pinned = current }) k2,
          w2,
        )).1,
      )

  abbrev pub said_fall_back : Policy → ℕ → ℕ → Kept → Kept
  said_fall_back policy n good k =
      say
        (policy.unit
          +s ": failed on generation "
          +s decimal n
          +s " of "
          +s policy.profile
          +s ", newer than the last good one ("
          +s decimal good
          +s ") - a swap was interrupted; rolling back")
        k

  -- `firstSight` of a unit with no swap under way.
  unfoldable pub look : Policy → UnitState → String → ℕ → Next → State W → Run (State W)
  look policy state current n next (k, w) =
      let good = generation_of (memory_of policy.unit k).good in
      if n == 0
      then next (answered none) (k, w)
      else if is_up state
      then next (answered none) (adopt policy n (k, w))
      else if is_interrupted state good n && not dry_run
      then holding (said_fall_back policy n good k, w) policy.unit
          (and_then next (fall_back policy current good))
      else next (answered none) (k, w)

  -- `firstSight`.
  unfoldable pub first_sight : Policy → UnitState → String → ℕ → Next → State W → Run (State W)
  unfolding resume_swap look
  first_sight policy state current n next (k, w) = elim ((memory_of policy.unit k).swapping) [
    | some r ↦ resume_swap policy r state n next (k, w)
    | none ↦ look policy state current n next (k, w)
  ]

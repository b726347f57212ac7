-- ===== src/Systemd/Swap.antt =====
-- `swap` of internal/systemd/source.go and what undoes it: `undo`, `rollBack`, `switchBack`,
-- `countFailure` and `save`.
use tidewaiter.Common.{
  ℕ, suc, String, ◌+s◌, Bool, true, false, not, ◌&&◌, ◌||◌, none, some, if◌then◌else◌, str_eq, leb,
  ◌==◌, decimal,
}
use tidewaiter.Health.{Verdict}
use tidewaiter.Source.{Answer, answered, errored, max_swap_failures}
use tidewaiter.Systemd.Unit.{UnitState, JobResult}
use tidewaiter.Systemd.Settings.{Policy}
use tidewaiter.Systemd.State.{
  UnitMemory, Kept, State, Failure, Deps, say, memory_of, remember, Call, ◌>>=◌, ◌>>◌, pure, ask,
  tell,
}
use tidewaiter.Systemd.Gate.{gate}

-- How far a change got: the closure bound, the profile set, and how it ended.
pub record Change : Type 0 where
  pub bound : Bool
  pub set : Bool
  pub ended : Answer JobResult

-- `memory.Swapping = nil` and what goes with it.
abbrev pub cleared : UnitMemory → UnitMemory
cleared m = record m { swapping = none }

abbrev pub pinned_out : String → UnitMemory → UnitMemory
pinned_out desired m = record m {
  pinned = desired;
  failing = "";
  swap_failures = 0;
  swapping = none;
}

abbrev pub failures_after : UnitMemory → String → ℕ
failures_after m desired = if str_eq m.failing desired then suc m.swap_failures else 1

-- `countFailure`.
unfoldable pub count_failure : String → String → Kept → Kept
count_failure unit desired k =
    let m = memory_of unit k in
    let failures = failures_after m desired in
    let counted = record m { failing = desired; swap_failures = failures } in
    if leb max_swap_failures failures
    then remember unit (record counted { pinned = desired })
        (say
          (unit
            +s ": swap has failed "
            +s decimal failures
            +s " times running for "
            +s desired
            +s "; pinning it out until the desired version moves on")
          k)
    else remember unit counted k

module _ {W : Type 0} (deps : Deps W) where
  open deps use {
    dry_run, unit, restart, daemon_reload, generation, set_profile, switch_generation,
    delete_generation, prune, bind, encode,
  }

  -- `save`; the memories are values, so `copy` is nothing.
  unfoldable pub save : State W → Bool × State W
  save (k, w) =
      let written = encode k.memories in
      if str_eq written k.saved || dry_run
      then (true, (k, w))
      else let (failure, w') = deps.save k.memories w in
        elim failure [
          | none ↦ (true, (record k { saved = written }, w'))
          | some e ↦ (
            false,
            (say ("Warning: could not save the systemd source's state (" +s e +s ")") k, w'),
          )
        ]

  -- A failed deletion is said, and is no error.
  abbrev pub deleted : String → ℕ → Kept → Failure × W → State W
  deleted profile failed k (none, w) = (k, w)
  deleted profile failed k (some e, w) =
      (say (profile +s ": could not delete generation " +s decimal failed +s " (" +s e +s ")") k, w)

  -- `switchBack`.
  unfoldable pub switch_back : String → ℕ → Call W (Unit {0})
  switch_back profile n = ask (generation profile) >>= λ failed s.
      if failed == n
      then pure tt s
      else (tell (switch_generation profile n) >> λ (k, w).
            if failed == 0
            then pure tt (k, w)
            else pure tt (deleted profile failed k (delete_generation profile failed w)))
          s

  abbrev pub rebind : Policy → String → Call W (Unit {0})
  rebind policy target = tell (bind policy.unit policy.profile target) >> tell daemon_reload

  abbrev pub when : Bool → Call W (Unit {0}) → Call W (Unit {0})
  when b call = if b then call else pure tt

  abbrev pub restart_if_moved : Policy → UnitState → Call W (Unit {0})
  restart_if_moved policy before = ask (unit policy.unit) >>= λ after.
      if str_eq after.invocation_id before.invocation_id
      then pure tt
      else ask (restart policy.unit) >>= λ _. pure tt

  -- The steps of `undo`.
  unfoldable pub undo_steps : Policy → UnitState → String → ℕ → Bool → Bool → Call W (Unit {0})
  unfolding switch_back
  undo_steps policy before current previous bound set =
      when (set && not (previous == 0)) (switch_back policy.profile previous)
      >> when (bound && not (str_eq current "")) (rebind policy current)
      >> when set (restart_if_moved policy before)

  -- `undo`.
  unfoldable pub undo : Policy → UnitState → String → ℕ → Bool → Bool → State W → State W
  unfolding undo_steps
  undo policy before current previous bound set s =
      let (answer, (k, w)) = undo_steps policy before current previous bound set s in
      elim answer [
        | answered _ ↦ (k, w)
        | errored e ↦ (
          say
              (policy.unit +s ": undoing the swap itself failed (" +s e
                +s "); manual attention needed")
              k,
          w,
        )
      ]

  -- The steps of `rollBack`.
  unfoldable pub roll_back_steps : Policy → ℕ → String → Call W Verdict
  unfolding switch_back
  roll_back_steps policy previous target =
      switch_back policy.profile previous
      >> when policy.bind_closure (rebind policy target)
      >> (ask (restart policy.unit) >>= gate deps policy)

  abbrev pub rolled_back : Policy → String → Answer Verdict → Kept → Kept
  rolled_back policy target (errored e) k =
      say (policy.unit +s ": rollback itself failed (" +s e +s "); manual attention needed") k
  rolled_back policy target (answered v) k =
      if v.healthy
      then say
          (policy.unit +s ": rolled back to " +s target +s " and pinned " +s policy.desired
            +s " out until the desired version moves on")
          k
      else say
          (policy.unit +s ": rolled back to " +s target +s ", but it is not healthy either ("
            +s v.reason +s "); manual attention needed")
          k

  -- `rollBack`.
  unfoldable pub roll_back : Policy → ℕ → String → State W → State W
  unfolding roll_back_steps
  roll_back policy previous target (k, w) =
      if previous == 0 || str_eq target ""
      then (
        say
            (policy.unit +s ": there is no earlier generation of " +s policy.profile
              +s " to roll back to; manual attention needed")
            k,
        w,
      )
      else let (answer, (k', w')) = roll_back_steps policy previous target (k, w) in
        (rolled_back policy target answer k', w')

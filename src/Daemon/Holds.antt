-- ===== src/Daemon/Holds.antt =====
-- How a pass of internal/daemon/daemon.go holds the workloads that it swaps, and lets go of them.
use tidewaiter.Common.{
  String, ◌≡◌, ap, ◌↔◌, ◌⊎◌, inl, inr, Option, none, some, List, [], ◌∷◌, map, str_eq, set_add,
  sort, Elem, Elem-sort, Elem-set_add, Bool-cases, arith,
}
use tidewaiter.Source.{Outcome, Answer, answered, errored}
use tidewaiter.Daemon.State.{Status, Daemon, Deps, State}
use tidewaiter.Daemon.Publish.{snapshot, swapping}
use tidewaiter.Daemon.Keeps.{publish-Keeps, publish-written}
use tidewaiter.Daemon.Pass.{hold, conclude, once, noun, summarise, dump_conntrack, run_sources}

-- The workloads that the newest status written says are being swapped, if one was written.
abbrev pub newest_swapping : List Status → Option (List String)
newest_swapping [] = none
newest_swapping (status ∷ rest) = some status.swapping

-- What a pass's answer says of the daemon it leaves.
abbrev pub Concluded : Answer (List Outcome) → String → Daemon → Type 0
Concluded (answered outcomes) what d =
    (d.last_failure ≡ "") × (d.last_summary ≡ summarise (map (λ o. o.action) outcomes) what)
Concluded (errored e) what d = d.last_failure ≡ e

module _ {W : Type 0} (deps : Deps W) where
  -- Before a source goes on to swap a workload that it holds, a status is written that says so, with
  -- every workload held before; the set held grows by exactly that workload, and the verdicts are kept.
  pub hold_lem :
      (x y : String) (d : Daemon) (w : W)
      → let s = hold deps x (d, w) in
        (Elem y s.0.held ↔ ((x ≡ y) ⊎ Elem y d.held))
        × (s.0.seen ≡ d.seen)
        × ((names : List String) × (newest_swapping s.0.written ≡ some names)
            × (Elem y names ↔ ((x ≡ y) ⊎ Elem y d.held)))
  unfolding hold snapshot swapping
  hold_lem x y d w =
      let held : Daemon = record d { held = set_add x d.held } in
      let kept = publish-Keeps deps (held, w) in
      (
        ground (arith, kept.held, Elem-set_add y x d.held),
        kept.seen,
        (
          sort (set_add x d.held),
          ap newest_swapping (publish-written deps held w),
          ground (arith, Elem-sort y (set_add x d.held), Elem-set_add y x d.held),
        ),
      )

  conclude_lem :
      (acc : List Outcome × Option String) (s : State W)
      → let (answer, s') = conclude deps acc s in
        (s'.0.held ≡ [])
        × (newest_swapping s'.0.written ≡ some [])
        × Concluded answer (noun deps) s'.0
  unfolding snapshot swapping
  conclude_lem (outcomes, some e) (d, w) =
      let idle : Daemon = record d { held = []; last_failure = e } in
      let kept = publish-Keeps deps (idle, w) in
      (kept.held, ap newest_swapping (publish-written deps idle w), kept.last_failure)
  conclude_lem (outcomes, none) (d, w) =
      let summary = summarise (map (λ o. o.action) outcomes) (noun deps) in
      let idle : Daemon = record d { held = []; last_summary = summary; last_failure = "" } in
      let kept = publish-Keeps deps (idle, w) in
      elim (Bool-cases (str_eq summary d.last_summary)) [
        | inl e ↦ rw e (
          kept.held,
          ap newest_swapping (publish-written deps idle w),
          (kept.last_failure, kept.last_summary),
        )
        | inr e ↦ rw e (
          kept.held,
          ap newest_swapping (publish-written deps idle w),
          (kept.last_failure, kept.last_summary),
        )
      ]

  -- However a pass ends, it lets go of every workload that it held, and the last status that it writes
  -- says so; a pass that answers leaves the summary of its outcomes and no failure, and one that errored
  -- leaves its error.
  pub once_lem :
      (s : State W)
      → let (answer, s') = once deps s in
        (s'.0.held ≡ [])
        × (newest_swapping s'.0.written ≡ some [])
        × Concluded answer (noun deps) s'.0
  unfolding once
  once_lem s =
      let (table, s1) = dump_conntrack deps s in
      let (acc, s2) = run_sources deps table deps.sources ([], none) s1 in conclude_lem acc s2

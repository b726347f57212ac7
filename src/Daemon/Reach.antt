-- ===== src/Daemon/Reach.antt =====
-- What holds of the daemon of internal/daemon/daemon.go after any passes, ticks and looks at a reboot,
-- in any order.
use tidewaiter.Common.{
  String, ◌≡◌, ◌≢◌, refl, ap, ◌∙◌, inl, inr, Bool, true, false, Option, none, some, List, [], ◌∷◌,
  map, suc, ◌+s◌, str_eq, set_add, arith, Option-cases, Bool-cases,
}
use tidewaiter.Reboot
use tidewaiter.Source.{Table, Outcome, Answer, answered, errored, Run, finished, holding, Source}
use tidewaiter.Daemon.State.{AutoReboot, Daemon, Deps, State, Failure}
use tidewaiter.Daemon.Keeps.{Keeps, publish-Keeps}
use tidewaiter.Daemon.Pass.{
  dumped, dump_conntrack, hold, run_source, take_answer, run_sources, conclude, once, tick,
  record_outcomes, summarise, noun, read_activity,
}
use tidewaiter.Daemon.Ticks.{dumped-Keeps, read_activity-SameSettled, tick-SameSettled}
use tidewaiter.Daemon.Holds.{once_lem}
use tidewaiter.Daemon.Grants.{asked_in, consider_reboot-Knows}
use tidewaiter.Daemon.Reboots.{
  reboot_verdict, decision, asked, act_on, after_look, reboot_if_needed, on_need, reboot_if_ready,
  consider_reboot,
}

-- Whether a reboot was asked for is as it was.
record SameAsks (d d' : Daemon) : Type 0 where
  asks : d'.asks ≡ d.asks
  rebooting : d'.rebooting ≡ d.rebooting

SameAsks-trans : {d d' d'' : Daemon} → SameAsks d d' → SameAsks d' d'' → SameAsks d d''
SameAsks-trans h k = record { asks = k.asks ∙ h.asks; rebooting = k.rebooting ∙ h.rebooting }

Keeps-SameAsks : {d d' : Daemon} → Keeps d d' → SameAsks d d'
Keeps-SameAsks h = record { asks = h.asks; rebooting = h.rebooting }

module _ {W : Type 0} (deps : Deps W) where
  run_source-SameAsks : (r : Run W) (d : Daemon) → SameAsks d (run_source deps r d).1.0
  unfolding run_source hold
  run_source-SameAsks (finished w answer) d = record { asks = refl; rebooting = refl }
  run_source-SameAsks (holding w workload go_on) d =
      let s = hold deps workload (d, w) in
      SameAsks-trans
        (record {
          asks = (publish-Keeps deps (record d { held = set_add workload d.held }, w)).asks;
          rebooting =
              (publish-Keeps deps (record d { held = set_add workload d.held }, w)).rebooting;
        })
        (run_source-SameAsks (go_on s.1) s.0)

  take_answer-SameAsks :
      (name : String) (answer : Answer (List Outcome)) (acc : List Outcome × Option String)
      (d : Daemon)
      → SameAsks d (take_answer deps name answer acc d).1
  unfolding record_outcomes
  take_answer-SameAsks name (answered own) acc d = record { asks = refl; rebooting = refl }
  take_answer-SameAsks name (errored e) acc d = ground arith

  run_sources-SameAsks :
      (table : Table) (sources : List (Source W)) (acc : List Outcome × Option String) (d : Daemon)
      (w : W)
      → SameAsks d (run_sources deps table sources acc (d, w)).1.0
  unfolding run_sources
  run_sources-SameAsks table [] acc d w = record { asks = refl; rebooting = refl }
  run_sources-SameAsks table (s ∷ rest) acc d w =
      let (answer, (d1, w1)) = run_source deps (s.once table w) d in
      let (acc', d2) = take_answer deps s.name answer acc d1 in
      SameAsks-trans (run_source-SameAsks (s.once table w) d) (
        SameAsks-trans (take_answer-SameAsks s.name answer acc d1)
          (run_sources-SameAsks table rest acc' d2 w1))

  conclude-SameAsks :
      (acc : List Outcome × Option String) (d : Daemon) (w : W)
      → SameAsks d (conclude deps acc (d, w)).1.0
  conclude-SameAsks (outcomes, some e) d w =
      let kept = publish-Keeps deps (record d { held = []; last_failure = e }, w) in
      record { asks = kept.asks; rebooting = kept.rebooting }
  conclude-SameAsks (outcomes, none) d w =
      let summary = summarise (map (λ o. o.action) outcomes) (noun deps) in
      let kept =
        publish-Keeps deps (record d { held = []; last_summary = summary; last_failure = "" }, w) in
      elim (Bool-cases (str_eq summary d.last_summary)) [
        | inl e ↦ record { asks = rw e kept.asks; rebooting = rw e kept.rebooting }
        | inr e ↦ record { asks = rw e kept.asks; rebooting = rw e kept.rebooting }
      ]

  -- A pass asks for no reboot.
  once-SameAsks : (s : State W) → SameAsks s.0 (once deps s).1.0
  unfolding once dump_conntrack
  once-SameAsks (d, w) =
      let (answer, w1) = deps.dump w in
      let (table, d1) = dumped answer d in
      let (acc, s2) = run_sources deps table deps.sources ([], none) (d1, w1) in
      SameAsks-trans (Keeps-SameAsks (dumped-Keeps answer d)) (
        SameAsks-trans (run_sources-SameAsks table deps.sources ([], none) d1 w1)
          (conclude-SameAsks acc s2.0 s2.1))

  verdict-held :
      (auto : AutoReboot) (why verdict : String) (d : Daemon)
      → (reboot_verdict auto why verdict d).held ≡ d.held
  unfolding reboot_verdict
  verdict-held auto why verdict d = ground arith

  asked-held :
      (auto : AutoReboot) (why : String) (f : Failure) (d : Daemon) (w : W)
      → (asked deps auto why f (d, w)).0.held ≡ d.held
  asked-held auto why none d w = refl
  asked-held auto why (some e) d w =
      verdict-held auto why ("the reboot was refused (" +s e +s "); trying again next pass") d

  act_on-held :
      (auto : AutoReboot) (why : String) (kind : Reboot.Kind) (reason : String) (d : Daemon) (w : W)
      → (act_on deps auto why (record { kind = kind; reason = reason }) (d, w)).0.held ≡ d.held
  unfolding act_on
  act_on-held auto why Reboot.not_needed reason d w = verdict-held auto "" "not needed" d
  act_on-held auto why Reboot.wait reason d w = verdict-held auto why reason d
  act_on-held auto why Reboot.reboot reason d w =
      let d' = reboot_verdict auto why "rebooting, as nothing is in use" d in
      asked-held auto why (deps.ask_reboot w).0 (record d' { asks = suc d'.asks })
        (deps.ask_reboot w).1
      ∙ verdict-held auto why "rebooting, as nothing is in use" d

  after_look-held :
      (auto : AutoReboot) (why : String) (look : Bool × State W)
      → (after_look deps auto why look).0.held ≡ look.1.0.held
  after_look-held auto why (true, (d, w)) =
      let v = decision deps auto why (d, w) in act_on-held auto why v.kind v.reason d w
  after_look-held auto why (false, (d, w)) =
      act_on-held auto why Reboot.wait "waiting: activity could not be read" d w

  reboot_if_needed-held :
      (auto : AutoReboot) (why : String) (d : Daemon) (w : W)
      → (reboot_if_needed deps auto why (d, w)).0.held ≡ d.held
  unfolding reboot_if_needed
  reboot_if_needed-held auto why d w =
      let v = decision deps auto why (d, w) in
      ground (
        arith,
        act_on-held auto why v.kind v.reason d w,
        after_look-held auto why (read_activity deps (d, w)),
        (read_activity-SameSettled deps (d, w)).held,
      )

  on_need-held :
      (auto : AutoReboot) (need : Reboot.Need) (d : Daemon) (w : W)
      → (on_need deps auto need (d, w)).0.held ≡ d.held
  on_need-held auto (Reboot.cannot_tell e) d w =
      verdict-held auto "" ("could not tell whether a reboot is needed (" +s e +s ")") d
  on_need-held auto (Reboot.tells why) d w = reboot_if_needed-held auto why d w

  -- A look at a reboot holds nothing and lets go of nothing.
  consider_reboot-held : (d : Daemon) (w : W) → (consider_reboot deps (d, w)).0.held ≡ d.held
  unfolding consider_reboot reboot_if_ready
  consider_reboot-held d w = elim (Option-cases deps.auto_reboot) [
    | inl n ↦ rw n refl
    | inr (auto, n) ↦
        let (need, w') = deps.needed w in
        let after = on_need deps auto need (d, w') in
        elim (Bool-cases d.rebooting) [
          | inl r ↦ ground arith
          | inr r ↦ ground (arith, (publish-Keeps deps after).held, on_need-held auto need d w')
        ]
  ]

  -- Once a reboot was granted, no look asks for another.
  consider_reboot-granted :
      (d : Daemon) (w : W) → d.rebooting ≡ true → consider_reboot deps (d, w) ≡ (d, w)
  unfolding consider_reboot
  consider_reboot-granted d w r = elim (Option-cases deps.auto_reboot) [
    | inl n ↦ rw n refl
    | inr (auto, n) ↦ rw (n, r) refl
  ]

  -- The daemon's steps: a pass, a tick while the turn is free or taken, and a look at a reboot, as they
  -- follow one another.
  pub data Reach (s : State W) : State W → Type 0 where
    here : Reach s s
    passed : {t : State W} → Reach s t → Reach s (once deps t).1
    ticked : (turn_free : Bool) {t : State W} → Reach s t → Reach s (tick deps turn_free t)
    considered : {t : State W} → Reach s t → Reach s (consider_reboot deps t)

  -- Between the steps of a daemon that held nothing, nothing is held: whatever passes, ticks and looks
  -- at a reboot followed one another, no workload stays marked as being swapped, so that no reboot waits
  -- for a swap that is over.
  pub Reach-held : (s t : State W) → s.0.held ≡ [] → Reach s t → t.0.held ≡ []
  Reach-held s _ none_held here = none_held
  Reach-held s _ none_held (passed {t} r) = (once_lem deps t).0
  Reach-held s _ none_held (ticked turn_free {t} r) =
      (tick-SameSettled deps turn_free t).held ∙ Reach-held s t none_held r
  Reach-held s _ none_held (considered {t} r) =
      consider_reboot-held t.0 t.1 ∙ Reach-held s t none_held r

  -- What a daemon that knows of a granted reboot comes to.
  Reach-rebooting :
      (s t : State W)
      → s.0.rebooting ≡ true
      → Reach s t
      → (t.0.rebooting ≡ true) × (t.0.asks ≡ s.0.asks)
  Reach-rebooting s _ granted here = (granted, refl)
  Reach-rebooting s _ granted (passed {t} r) =
      let (on, same) = Reach-rebooting s t granted r in
      let kept = once-SameAsks t in (kept.rebooting ∙ on, kept.asks ∙ same)
  Reach-rebooting s _ granted (ticked turn_free {t} r) =
      let (on, same) = Reach-rebooting s t granted r in
      let kept = tick-SameSettled deps turn_free t in (kept.rebooting ∙ on, kept.asks ∙ same)
  Reach-rebooting s _ granted (considered {t} r) =
      let (on, same) = Reach-rebooting s t granted r in
      let still = consider_reboot-granted t.0 t.1 on in
      (ap (λ u. u.0.rebooting) still ∙ on, ap (λ u. u.0.asks) still ∙ same)

  -- Once a look at a reboot has asked logind for one and logind granted it, none is asked for again,
  -- whatever passes, ticks and looks follow.
  pub Reach-granted :
      (s t : State W)
      → (consider_reboot deps s).0.asks ≢ s.0.asks
      → (deps.ask_reboot (asked_in deps s)).0 ≡ none
      → Reach (consider_reboot deps s) t
      → t.0.asks ≡ (consider_reboot deps s).0.asks
  Reach-granted s t asked grants r =
      (Reach-rebooting (consider_reboot deps s) t (consider_reboot-Knows deps s asked grants) r).1

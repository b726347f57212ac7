-- ===== src/Daemon/Grants.antt =====
-- What a look at a reboot, of internal/daemon/daemon.go, leaves once logind has granted it one.
use tidewaiter.Common.{
  String, ◌+s◌, ◌≡◌, refl, ◌∙◌, ◌≢◌, ◌⊎◌, inl, inr, Bool, true, false, none, arith, Option-cases,
  Bool-cases,
}
use tidewaiter.Reboot
use tidewaiter.Daemon.State.{AutoReboot, Daemon, Deps, State}
use tidewaiter.Daemon.Pass.{read_activity}
use tidewaiter.Daemon.Keeps.{publish-Keeps}
use tidewaiter.Daemon.Ticks.{read_activity-SameSettled}
use tidewaiter.Daemon.Safety.{reboot_verdict_lem, act_on-quiet, IsReboot-cases}
use tidewaiter.Daemon.Reboots.{
  decision, act_on, after_look, reboot_if_needed, on_need, reboot_if_ready, consider_reboot,
}

module _ {W : Type 0} (deps : Deps W) where
  -- The world that a look at a reboot asks logind in: after the need of one and the activities were read.
  abbrev pub asked_in : State W → W
  asked_in (d, w) = (read_activity deps (d, (deps.needed w).1)).1.1

  -- A step from one daemon to the next has asked for no reboot, or knows that one was granted.
  abbrev Knows : Daemon → Daemon → Type 0
  Knows d d' = (d'.asks ≡ d.asks) ⊎ (d'.rebooting ≡ true)

  act_on-Knows :
      (auto : AutoReboot) (why : String) (v : Reboot.Verdict) (s : State W)
      → (deps.ask_reboot s.1).0 ≡ none
      → Knows s.0 (act_on deps auto why v s).0
  unfolding act_on
  act_on-Knows auto why v (d, w) grants = elim (IsReboot-cases deps v.kind) [
    | inl e ↦ inr (rw (e, grants) refl)
    | inr n ↦ inl (act_on-quiet deps auto why v (d, w) n)
  ]

  after_look-Knows :
      (auto : AutoReboot) (why : String) (look : Bool × State W)
      → (deps.ask_reboot look.1.1).0 ≡ none
      → Knows look.1.0 (after_look deps auto why look).0
  after_look-Knows auto why (true, s) grants =
      act_on-Knows auto why (decision deps auto why s) s grants
  after_look-Knows auto why (false, s) grants =
      act_on-Knows auto why (Reboot.waits "waiting: activity could not be read") s grants

  reboot_if_needed-Knows :
      (auto : AutoReboot) (why : String) (s : State W)
      → (deps.ask_reboot (read_activity deps s).1.1).0 ≡ none
      → Knows s.0 (reboot_if_needed deps auto why s).0
  unfolding reboot_if_needed
  reboot_if_needed-Knows auto why s grants =
      let v = decision deps auto why s in
      elim (IsReboot-cases deps v.kind) [
        | inl e ↦
            rw (e, reboot_if_needed)
              (elim (after_look-Knows auto why (read_activity deps s) grants) [
                | inl same ↦ inl (same ∙ (read_activity-SameSettled deps s).asks)
                | inr on ↦ inr on
              ])
        | inr n ↦ inl (ground (arith, act_on-quiet deps auto why v s n))
      ]

  on_need-Knows :
      (auto : AutoReboot) (need : Reboot.Need) (s : State W)
      → (deps.ask_reboot (read_activity deps s).1.1).0 ≡ none
      → Knows s.0 (on_need deps auto need s).0
  on_need-Knows auto (Reboot.cannot_tell e) (d, w) grants =
      inl (
        (reboot_verdict_lem auto "" ("could not tell whether a reboot is needed (" +s e +s ")")
          d).0)
  on_need-Knows auto (Reboot.tells why) s grants = reboot_if_needed-Knows auto why s grants

  -- A look that asked for a reboot which logind granted knows it.
  pub consider_reboot-Knows :
      (s : State W)
      → (consider_reboot deps s).0.asks ≢ s.0.asks
      → (deps.ask_reboot (asked_in s)).0 ≡ none
      → (consider_reboot deps s).0.rebooting ≡ true
  unfolding consider_reboot reboot_if_ready
  consider_reboot-Knows (d, w) asked grants = elim (Option-cases deps.auto_reboot) [
    | inl n ↦ absurd (asked (rw n refl))
    | inr (auto, n) ↦ elim (Bool-cases d.rebooting) [
      | inl r ↦ rw (n, r) refl
      | inr r ↦
          let (need, w') = deps.needed w in
          let after = on_need deps auto need (d, w') in
          let kept = publish-Keeps deps after in
          elim (on_need-Knows auto need (d, w') grants) [
            | inl same ↦ absurd (asked (ground (arith, kept.asks ∙ same)))
            | inr on ↦ ground (arith, kept.rebooting ∙ on)
          ]
    ]
  ]

-- ===== src/Daemon/Reboots.antt =====
-- The automatic reboot of internal/daemon/daemon.go, after a pass.
use tidewaiter.Common.{suc, String, ◌+s◌, Bool, true, false, none, some, if◌then◌else◌, str_eq}
use tidewaiter.Reboot
use tidewaiter.Daemon.State.{AutoReboot, Daemon, Failure, Deps, State, log}
use tidewaiter.Daemon.Publish.{in_use, unsettled, swapping, publish}
use tidewaiter.Daemon.Pass.{read_activity}

-- `rebootVerdict`.
unfoldable pub reboot_verdict : AutoReboot → String → String → Daemon → Daemon
reboot_verdict auto needed verdict d =
    let line =
      if str_eq needed ""
      then "Automatic reboot (" +s auto.label +s "): " +s verdict
      else "Automatic reboot (" +s auto.label +s "): needed, " +s needed +s "; " +s verdict in
    let d' = record d {
      reboot = some (record { window = auto.label; needed = needed; verdict = verdict });
      last_reboot_line = line;
    } in
    if str_eq line d.last_reboot_line then d' else log line d'

module _ {W : Type 0} (deps : Deps W) where
  open deps use {auto_reboot, hour, minute, needed, ask_reboot}

  -- What stands between the machine and a reboot, now.
  unfoldable pub standing : AutoReboot → String → State W → Reboot.Inputs
  standing auto why (d, w) = record {
    needed = why;
    in_window = Reboot.contains_time auto.window (hour w) (minute w);
    busy = in_use d;
    unsettled = unsettled d;
    swapping = swapping d;
  }

  abbrev pub decision : AutoReboot → String → State W → Reboot.Verdict
  decision auto why s = Reboot.decide (standing auto why s)

  -- What `rebootIfReady` does once logind has answered.
  abbrev pub asked : AutoReboot → String → Failure → State W → State W
  asked auto why none (d, w) = (record d { rebooting = true }, w)
  asked auto why (some e) (d, w) = (
    reboot_verdict auto why ("the reboot was refused (" +s e +s "); trying again next pass") d,
    w,
  )

  -- The last switch of `rebootIfReady`.
  unfoldable pub act_on : AutoReboot → String → Reboot.Verdict → State W → State W
  act_on auto why verdict (d, w) = elim (verdict.kind) [
    | Reboot.not_needed ↦ (reboot_verdict auto "" "not needed" d, w)
    | Reboot.wait ↦ (reboot_verdict auto why verdict.reason d, w)
    | Reboot.reboot ↦
        let d' = reboot_verdict auto why "rebooting, as nothing is in use" d in
        let (failure, w') = ask_reboot w in
        asked auto why failure (record d' { asks = suc d'.asks }, w')
  ]

  -- The look right before logind is asked.
  abbrev pub after_look : AutoReboot → String → Bool × State W → State W
  after_look auto why (true, s) = act_on auto why (decision auto why s) s
  after_look auto why (false, s) =
      act_on auto why (Reboot.waits "waiting: activity could not be read") s

  unfoldable pub reboot_if_needed : AutoReboot → String → State W → State W
  unfolding act_on
  reboot_if_needed auto why s =
      let verdict = decision auto why s in
      elim (verdict.kind) [
        | Reboot.reboot ↦ after_look auto why (read_activity deps s)
        | _ ↦ act_on auto why verdict s
      ]

  abbrev pub on_need : AutoReboot → Reboot.Need → State W → State W
  on_need auto (Reboot.cannot_tell e) (d, w) =
      (reboot_verdict auto "" ("could not tell whether a reboot is needed (" +s e +s ")") d, w)
  on_need auto (Reboot.tells why) s = reboot_if_needed auto why s

  -- `rebootIfReady`.
  unfoldable pub reboot_if_ready : AutoReboot → State W → State W
  unfolding reboot_if_needed
  reboot_if_ready auto (d, w) = let (need, w') = needed w in on_need auto need (d, w')

  -- `ConsiderReboot`.
  unfoldable pub consider_reboot : State W → State W
  unfolding reboot_if_ready
  consider_reboot (d, w) = elim auto_reboot [
    | none ↦ (d, w)
    | some auto ↦ if d.rebooting then (d, w) else publish deps (reboot_if_ready auto (d, w))
  ]

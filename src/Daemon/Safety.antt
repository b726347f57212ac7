-- ===== src/Daemon/Safety.antt =====
-- When the daemon of internal/daemon/daemon.go asks logind to reboot.
use tidewaiter.Common.{String, ◌+s◌, ◌≡◌, refl, ◌≢◌, ◌⊎◌, true, none, some, [], arith}
use tidewaiter.Reboot
use tidewaiter.Daemon.State.{AutoReboot, Daemon, Deps, State, Failure}
use tidewaiter.Daemon.Publish.{in_use, unsettled, swapping}
use tidewaiter.Daemon.Pass.{read_activity}
use tidewaiter.Daemon.Reboots.{reboot_verdict, asked, act_on}

-- A verdict that is remembered is no request, and does not end the asking.
pub reboot_verdict_lem :
    (auto : AutoReboot) (why verdict : String) (d : Daemon)
    → ((reboot_verdict auto why verdict d).asks ≡ d.asks)
      × ((reboot_verdict auto why verdict d).rebooting ≡ d.rebooting)
unfolding reboot_verdict
reboot_verdict_lem auto why verdict d = ground arith

module _ {W : Type 0} (deps : Deps W) where
  asked_lem :
      (auto : AutoReboot) (why : String) (f : Failure) (d : Daemon) (w : W)
      → (asked deps auto why f (d, w)).0.asks ≡ d.asks
  asked_lem auto why none d w = refl
  asked_lem auto why (some e) d w =
      (reboot_verdict_lem auto why ("the reboot was refused (" +s e +s "); trying again next pass")
        d).0

  -- Only a verdict to reboot asks.
  pub act_on-quiet :
      (auto : AutoReboot) (why : String) (verdict : Reboot.Verdict) (s : State W)
      → verdict.kind ≢ Reboot.reboot
      → (act_on deps auto why verdict s).0.asks ≡ s.0.asks
  unfolding act_on
  act_on-quiet auto why verdict (d, w) h = ground (
    arith,
    reboot_verdict_lem auto "" "not needed" d,
    reboot_verdict_lem auto why verdict.reason d,
  )

  pub IsReboot-cases : (k : Reboot.Kind) → (k ≡ Reboot.reboot) ⊎ (k ≢ Reboot.reboot)
  IsReboot-cases k = ground arith

  -- All that stood between the machine and a reboot when logind was asked: the reason was not empty,
  -- every source had just answered, the time was in the window, and by those answers nothing was in
  -- use, unsettled or being swapped.
  pub record IsClear (auto : AutoReboot) (s : State W) : Type 0 where
    pub why : String
    pub world : W
    pub needed : deps.needed s.1 ≡ (Reboot.tells why, world)
    pub given : why ≢ ""
    pub all_answered : (read_activity deps (s.0, world)).0 ≡ true
    pub in_window :
        Reboot.contains_time auto.window
          (deps.hour (read_activity deps (s.0, world)).1.1)
          (deps.minute (read_activity deps (s.0, world)).1.1)
        ≡ true
    pub nothing_in_use : in_use (read_activity deps (s.0, world)).1.0 ≡ []
    pub nothing_unsettled : unsettled (read_activity deps (s.0, world)).1.0 ≡ []
    pub nothing_swapping : swapping (read_activity deps (s.0, world)).1.0 ≡ []

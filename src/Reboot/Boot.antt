-- ===== src/Reboot/Boot.antt =====
-- When internal/reboot/reboot.go finds that the installed NixOS needs a reboot.
use tidewaiter.Common.{String, ◌≡◌}
use tidewaiter.Reboot.{Link, leads, NixOs, resolved, file_of, Resolved, target}

-- Both were resolved, to one target.
abbrev pub Agree : Resolved → Resolved → Type 0
Agree (target was) (target is) = was ≡ is
Agree _ _ = ⊥

module _ (eval_symlinks : String → Link) where
  -- The booted and the installed system have the file at one place, or neither has it.
  abbrev pub IsSame : NixOs → String → Type 0
  IsSame n name =
      Agree (resolved eval_symlinks (file_of n.booted name))
        (resolved eval_symlinks (file_of n.current name))

  -- A system that is there.
  abbrev pub IsThere : String → Type 0
  IsThere system = (place : String) × (eval_symlinks system ≡ leads place)

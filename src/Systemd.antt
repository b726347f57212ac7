-- ===== src/Systemd.antt =====
-- internal/systemd: the source of units whose program lives in a Nix profile.
pub mod Unit
pub mod Settings
pub mod Parse
pub mod State
pub mod Gate
pub mod Sample
pub mod Swap
pub mod Update
pub mod Sight
pub mod Files
pub mod Running
pub mod Pass
pub mod Memory
pub mod Stays
pub mod Saves
pub mod Ends
pub mod Leaves
pub mod Starts
pub mod Resumes
pub mod Dry
pub mod Distinct
pub mod Unread
pub mod Reports
pub mod Restore
pub mod Valid
pub mod Gated
pub mod Prepare
mod Examples

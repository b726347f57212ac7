-- ===== src/Daemon.antt =====
-- internal/daemon/daemon.go: the pass that runs every source, the activity tick between passes, the
-- status that both write, and the automatic reboot. Every call holds the locks that the source takes,
-- so each is one function from the daemon's state and the world to the next; what passes and ticks do
-- to one another is their sequence. `Run`, which starts the goroutines, is not modelled.
pub mod State
pub mod Publish
pub mod Pass
pub mod Reboots
pub mod Keeps
pub mod Verdicts
pub mod Ticks
pub mod Outcomes
pub mod Holds
pub mod Safety
pub mod Reads
pub mod Grants
pub mod Reach
mod Examples

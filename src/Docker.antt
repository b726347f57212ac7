-- ===== src/Docker.antt =====
-- internal/docker: the source of labelled containers, and how one is swapped for a newer image. The
-- Docker engine and the registry are parameters, as they stand outside the repository.
pub mod Recreate
pub mod Swap
pub mod State
pub mod Labels
pub mod Host
pub mod Undo
pub mod Restore
pub mod Images
pub mod Update
pub mod Gate
pub mod Reconcile
pub mod Pass
pub mod Pins
pub mod Keeps
pub mod Waits
pub mod Chosen
pub mod Listing
pub mod Version
mod Examples

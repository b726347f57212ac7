-- ===== src/Nix.antt =====
-- internal/nix: the drop-in that binds a closure into a unit, of closure.go.
pub mod Paths
pub mod Closure
pub mod Bound
mod Examples

-- ===== src/Examples.antt =====
-- Runs of the model on concrete data, and the theorems at concrete inputs.
pub mod Data
mod DaemonData
mod Daemon
mod Process
mod Config
mod Dataplane
mod Wire
mod Security
mod Delivery
mod Tunnel
mod Session

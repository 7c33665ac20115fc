-- ===== src/Controller.antt =====
-- ios-controller/sandstorm_controller/: the controller on the Mac.
pub mod Devices
pub mod Profiles
pub mod Stale
pub mod Setup
pub mod Build
pub mod Cli
pub mod Agent
pub mod Tunnel
pub mod Discovery
pub mod Runner

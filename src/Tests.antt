-- ===== src/Tests.antt =====
-- Small runs of the model on the simulated switch, and the theorems at concrete inputs.
pub mod Setting
pub mod Switch
mod Routes
mod Learning
pub mod Hosts
mod Tap
pub mod Devices
mod Classes
pub mod Bundles
mod Vlans
pub mod Reach
mod Indices
mod Configured
mod Interfaces

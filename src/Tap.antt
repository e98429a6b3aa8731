-- ===== src/Tap.antt =====
-- src/ops-fpa-tap.c: the TAP interfaces that carry packets between the switch and the kernel.
pub mod Frame
pub mod Maps
pub mod Turned
pub mod Sync
pub mod Listeners
pub mod Egress
pub mod Echo
pub mod Interfaces

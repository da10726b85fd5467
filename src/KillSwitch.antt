-- ===== src/KillSwitch.antt =====
-- src/core/kill_switch.py: the emergency stop.
pub mod Switch
pub mod Halting
pub mod Keeps
pub mod Sweep
mod Tests

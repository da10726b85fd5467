-- ===== src/Shock.antt =====
-- src/intel/anomaly_guard.py: the reflex to a shock in the tick stream.
pub mod Window
pub mod Guard
pub mod Reflex
pub mod Cooloff
mod Tests

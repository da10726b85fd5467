-- ===== src/Stops.antt =====
-- src/exits/adapters: the stops of the exit engine at the brokers.
pub mod Adapters
pub mod Legs
mod Tests

-- ===== src/Audit.antt =====
-- src/risk/pre_trade_gate.py and src/ops/persistence.py: the audit log, chained by hashes.
pub mod Chain
pub mod Intact
pub mod Tampered
pub mod Gate
pub mod Stored
pub mod Reopened
mod Tests

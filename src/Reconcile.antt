-- ===== src/Reconcile.antt =====
-- src/ops/eod_reconciler.py: reconciliation at the end of the day.
pub mod Report
pub mod Agreement
mod Tests

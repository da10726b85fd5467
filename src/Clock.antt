-- ===== src/Clock.antt =====
-- src/ops/market_clock.py: which market is open, and when it opens next.
pub mod Sessions
pub mod NextOpen
mod Tests

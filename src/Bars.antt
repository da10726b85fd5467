-- ===== src/Bars.antt =====
-- src/data/bar_aggregator.py: bars from ticks.
pub mod Aggregator
pub mod Grouping
mod Tests

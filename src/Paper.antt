-- ===== src/Paper.antt =====
-- src/core/paper_broker.py and src/core/transaction_cost_model.py: trading on paper, and its costs.
pub mod Costs
pub mod Broker
pub mod Desk
pub mod Tradebook
pub mod Replay
pub mod Ticks
mod Tests

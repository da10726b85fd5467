-- ===== src/Guards.antt =====
-- The gates between a signal and the position sizer: src/core/budget_manager.py,
-- src/ops/session_guard.py, src/ops/prop_rules.py, src/risk/portfolio_heat.py, and their composition
-- in src/core/guard_stack.py.
pub mod Budget
pub mod BudgetFence
pub mod Session
pub mod SessionLatch
pub mod Prop
pub mod PropLimits
pub mod Heat
pub mod HeatLimits
pub mod Stack
pub mod StackOrder
mod Tests

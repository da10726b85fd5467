-- ===== src/Orders.antt =====
-- src/core/order_state_machine.py: the life of an order, from creation to a terminal state.
pub mod Record
pub mod Methods
pub mod Machine
pub mod Trail
pub mod Legality
pub mod Fills
pub mod LateFills
pub mod Exposure
mod Tests

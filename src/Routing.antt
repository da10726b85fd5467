-- ===== src/Routing.antt =====
-- src/core/order_router.py and src/core/broker_payloads.py: the single door through which orders leave.
pub mod Request
pub mod Dispatch
pub mod Router
pub mod Posts
pub mod Cleared
pub mod Door
pub mod Settled
pub mod Sends
pub mod Overfilled
mod Tests

-- ===== src/Sizing.antt =====
-- src/core/position_sizer.py and src/core/margin_checker.py: the size of a new position, and the margin for it.
pub mod Sizer
pub mod Caps
pub mod Margin
pub mod MarginClosed
mod Tests

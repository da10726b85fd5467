-- ===== src/Exits.antt =====
-- src/exits/exit_manager.py: the protective stop and the exit of each position.
pub mod Position
pub mod Moves
pub mod Bars
pub mod Ladder
pub mod SafeMoves
pub mod NeverWiden
pub mod Leaving
pub mod Manager
pub mod Restart
mod Tests

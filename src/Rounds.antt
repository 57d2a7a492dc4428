-- ===== src/Rounds.antt =====
-- The three rounds a competitor works in: Section A's page of puzzles, Section B's page of hacks, and
-- the coding round's list of owned questions.
pub mod Puzzles
pub mod Places
pub mod Hacks
pub mod Targets
pub mod Coding
pub mod Unsolved
mod Tests

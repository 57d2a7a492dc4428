-- ===== src/Authoring.antt =====
-- The administrators' authoring pages, web/src/components/admin.
pub mod Platform
pub mod Puzzle
pub mod Issues
pub mod Clear
pub mod Stored
pub mod Gradable
pub mod Wizard
pub mod Walk
pub mod Editing
pub mod Marks
pub mod Hack
pub mod Copies
pub mod Saving
mod Tests

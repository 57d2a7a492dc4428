-- ===== src/Widgets.antt =====
-- The controls that every page uses: paging, ordering, list editing, clocks.
pub mod Paging
pub mod Pages
pub mod Reorder
pub mod Order
pub mod ListEditor
pub mod Answers
pub mod Clock
pub mod Times
pub mod Dialogs
pub mod Reasons
mod Tests

-- ===== src/Sections.antt =====
-- The organisers' lists of the Phase 1 questions, the order of a section and the selection for Phase 2:
-- web/src/components/admin/phase1-lists.tsx and phase1-order.tsx.
pub mod Confirming
pub mod Filed
pub mod Lists
pub mod Review
pub mod Selected
pub mod Ordering
pub mod Ordered
pub mod Chips
mod Tests

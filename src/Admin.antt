-- ===== src/Admin.antt =====
-- The organisers' settings of the contest, web/src/app/(app)/admin/contest/page.tsx.
pub mod Settings
pub mod Reset
pub mod Edits
mod Tests

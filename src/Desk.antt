-- ===== src/Desk.antt =====
-- The workspace of one question, web/src/app/(app)/question/[id]/page.tsx, with its console,
-- web/src/components/contest/console.tsx.
pub mod Drafts
pub mod Kept
pub mod Submitting
pub mod Keys
pub mod Console
pub mod Failures
mod Tests

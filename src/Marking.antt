-- ===== src/Marking.antt =====
-- The evaluators' page, web/src/app/(app)/grade/page.tsx.
pub mod Queue
pub mod Seats
pub mod Card
pub mod Flags
mod Tests

-- ===== src/Roster.antt =====
-- The organisers' pages of the participants: web/src/app/(app)/admin/participants/page.tsx and
-- [id]/page.tsx, and the dialogs of web/src/components/admin/participant-actions.tsx.
pub mod Actions
pub mod People
pub mod Joining
pub mod SignIn
pub mod Record
pub mod Agreement
mod Tests

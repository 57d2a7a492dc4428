-- ===== src/Office.antt =====
-- The organisers' pages that watch the contest: web/src/app/(app)/admin/page.tsx, judge, submissions,
-- readiness and announcements under it, and web/src/components/admin/standings.tsx.
pub mod Feed
pub mod Polls
pub mod Drawer
pub mod Races
pub mod Checklist
pub mod Listed
pub mod Announcing
pub mod Durations
pub mod Carries
pub mod Standings
pub mod Dashboard
pub mod Panels
mod Tests

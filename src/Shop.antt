-- ===== src/Shop.antt =====
-- The competitors' marketplace, web/src/app/(app)/marketplace/page.tsx, and the organisers' settings of
-- it, web/src/components/admin/powerups.tsx.
pub mod Market
pub mod Requests
pub mod Powerups
pub mod Settings
mod Tests

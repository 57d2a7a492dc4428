-- ===== src/Hammer.antt =====
-- The organisers' page of the auction, web/src/app/(app)/admin/auction/page.tsx.
pub mod Control
pub mod Recording
pub mod Sales
mod Confirmed
mod Unchecked
pub mod Queue
mod Tests

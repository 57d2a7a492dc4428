-- ===== src/Arena.antt =====
-- What a competitor's page does while a round runs: the screen that holds them, the overlays, the
-- autosave of Section A, and the auction floor.
pub mod Proctor
pub mod Held
pub mod Announcements
pub mod Announced
pub mod Blackout
pub mod Lifted
pub mod Autosave
pub mod Saved
pub mod Auction
pub mod Bids
mod Tests

-- ===== src/Site.antt =====
-- The parts of the web server and of every page: who is signed in, the way to the engine, the
-- browser's calls, and the way back from a record.
pub mod Session
pub mod Engine
pub mod Client
pub mod CameFrom
pub mod Access
mod Redirects
pub mod Back
mod Tests

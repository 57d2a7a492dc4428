-- ===== src/Package.antt =====
-- A problem package looked into before it is uploaded, web/src/lib/package-inspect.ts.
pub mod Inspect
pub mod Paths
pub mod Accepted
mod Tests

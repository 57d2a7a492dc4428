-- ===== src/Follow.antt =====
-- web/src/lib/use-judgement.ts: following one server-side job from "sent" to a terminal state.
pub mod Stage
pub mod Machine
pub mod Backoff
pub mod Awake
pub mod Restart
mod Tests

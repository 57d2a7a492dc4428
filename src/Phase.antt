-- ===== src/Phase.antt =====
-- The contest's phases as the pages read them: which board, which screen, which step.
pub mod Boards
pub mod Screens
pub mod Rail
pub mod Nav
pub mod Agreement
pub mod News
mod Tests
use codolympics.Prelude.{Bool, String, List, [], ◌∷◌, Option}

-- The fields of `state.contest` that the screens look at (contest-provider.tsx).
pub record Contest : Type 0 where
  pub phase : String
  pub phase_ends_at : Option String
  pub registration_open : Bool
  pub leaderboard_mode : String
  pub p1_leaderboard_mode : String
  pub in_phase2 : Bool

-- The nine phases, in the order of `PHASE_STEPS` (web/src/components/shell.tsx).
abbrev phases : List String
phases =
    "registration" ∷ "p1_puzzles" ∷ "p1_hacking" ∷ "review" ∷ "auction1" ∷ "coding1" ∷ "auction2"
    ∷ "final" ∷ "ended" ∷ []

-- ===== src/Phase/Tests.antt =====
-- The phases' pages on concrete data.
use codolympics.Prelude.{true, false, none}
use codolympics.Phase.{Contest}

abbrev in_auction : Contest
in_auction = record {
  phase = "auction1";
  phase_ends_at = none;
  registration_open = false;
  leaderboard_mode = "live";
  p1_leaderboard_mode = "hidden";
  in_phase2 = true;
}

-- ===== src/Phase/Boards.antt =====
-- web/src/lib/boards.ts: which leaderboard the contest shows, and whether it is listed.
use codolympics.Prelude.{
  Bool, false, not, String, List, [], ◌∷◌, Option, none, some, if◌then◌else◌, str_eq, includes,
}
use codolympics.Phase.{Contest}

pub data Which : Type 0 where
  phase1 phase2 : Which

pub record Board : Type 0 where
  pub which : Which
  pub mode : String

abbrev phase1_phases : List String
phase1_phases = "p1_puzzles" ∷ "p1_hacking" ∷ "review" ∷ []

unfoldable board_for : Contest → Option Board
board_for c =
    if str_eq c.phase "registration"
    then none
    else if includes phase1_phases c.phase
    then some (record { which = phase1; mode = c.p1_leaderboard_mode })
    else some (record { which = phase2; mode = c.leaderboard_mode })

abbrev is_listed : Option Board → Bool
is_listed none = false
is_listed (some b) = not (str_eq b.mode "hidden")

unfoldable pub board_shown : Contest → Bool
unfolding board_for
board_shown c = is_listed (board_for c)

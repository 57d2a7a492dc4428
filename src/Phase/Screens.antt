-- ===== src/Phase/Screens.antt =====
-- web/src/app/(app)/dashboard/page.tsx, `ContestPage`: the one screen that follows the phase.
use codolympics.Prelude.{
  Bool, false, not, ◌&&◌, String, Option, none, some, if◌then◌else◌, str_eq, ◌||◌,
}
use codolympics.Phase.{Contest}

pub data Screen : Type 0 where
  loading not_selected section_a section_b reviewing auction_floor coding_round ended waiting :
      Screen

-- The `switch` on the phase; the last case is `default`.
unfoldable pub screen_of_phase : String → Screen
screen_of_phase phase =
    if str_eq phase "p1_puzzles"
    then section_a
    else if str_eq phase "p1_hacking"
    then section_b
    else if str_eq phase "review"
    then reviewing
    else if str_eq phase "auction1" || str_eq phase "auction2"
    then auction_floor
    else if str_eq phase "coding1" || str_eq phase "final"
    then coding_round
    else if str_eq phase "ended"
    then ended
    else waiting

-- `state.me?.advanced`, for the `me` of this state.
abbrev is_advanced : Option Bool → Bool
is_advanced none = false
is_advanced (some b) = b

-- The page's body: the contest, once the state has loaded, and `me.advanced` if there is a `me`.
unfoldable pub contest_page : Option Contest → (advanced : Option Bool) → Screen
unfolding screen_of_phase
contest_page none advanced = loading
contest_page (some c) advanced =
    if c.in_phase2 && not (is_advanced advanced) then not_selected else screen_of_phase c.phase

-- The effect that sends anyone but a participant to their own work.
unfoldable sent_to : (role : Option String) → Option String
sent_to none = none
sent_to (some role) = if str_eq role "participant" then none else some "/grade"

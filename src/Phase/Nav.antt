-- ===== src/Phase/Nav.antt =====
-- web/src/components/shell.tsx: the participant's navigation, and what live events announce.
use codolympics.Prelude.{
  Bool, true, false, not, ◌&&◌, String, List, [], ◌∷◌, ◌++◌, Option, none, some, if◌then◌else◌,
  str_eq, includes, keep,
}
use codolympics.Phase.{Contest}
use codolympics.Phase.Boards.{board_shown}

abbrev nav_items : List String
nav_items = "/dashboard" ∷ "/leaderboard" ∷ "/marketplace" ∷ []

unfoldable pub shopping : String → Contest → Bool
shopping role c = str_eq role "participant" && c.in_phase2

-- The addresses that are listed for this viewer in this state.
unfoldable pub nav : String → Contest → List String
unfolding shopping
nav role c =
    let no_shop = if shopping role c then [] else "/marketplace" ∷ [] in
    let no_board = if board_shown c then [] else "/leaderboard" ∷ [] in
    keep (λ href. not (includes (no_shop ++ no_board) href)) nav_items

-- What `LiveToasts` remembers of the phase, and what a "phase" event makes it announce.
pub record SeenPhase : Type 0 where
  pub phase : String
  pub registration_open : Bool

pub data Announced : Type 0 where
  phase_started : (phase : String) → Announced
  registration_opened registration_closed : Announced

abbrev same : Bool → Bool → Bool
same true b = b
same false b = not b

unfoldable pub on_phase : Option SeenPhase → String → Bool → Option SeenPhase × Option Announced
on_phase none phase is_open = (some (record { phase = phase; registration_open = is_open }), none)
on_phase (some before) phase is_open = (
  some (record { phase = phase; registration_open = is_open }),
  if not (str_eq before.phase phase)
      then some (phase_started phase)
      else if str_eq phase "registration" && not (same before.registration_open is_open)
      then some (if is_open then registration_opened else registration_closed)
      else none,
)

-- The bidder that the last "auction" event showed: unknown before the first event and without a lot.
pub data PrevBidder : Type 0 where
  unknown : PrevBidder
  known : Option String → PrevBidder

abbrev is_me : String → PrevBidder → Bool
is_me me (known (some b)) = str_eq b me
is_me me _ = false

-- An "auction" event: whether "You have been outbid" is announced, and what is remembered. The event
-- is the lot on offer, if any, by its `current_bidder_id`.
unfoldable pub on_auction : String → PrevBidder → Option (Option String) → PrevBidder × Bool
on_auction me prev none = (unknown, false)
on_auction me prev (some none) = (known none, false)
on_auction me prev (some (some b)) =
    (known (some b), is_me me prev && not (str_eq b "") && not (str_eq b me))

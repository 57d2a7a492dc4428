-- ===== src/Arena/Auction.antt =====
-- web/src/components/contest/auction-floor.tsx: `AuctionFloor`, what a viewer of the auction may do. The
-- snapshot's fields are those of `AuctionSnapshot` in contest-provider.tsx that the page decides by;
-- balances and prices are coins, which the engine keeps at or above zero.
use codolympics.Prelude.{
  ℕ, ◌+◌, ◌-◌, ◌/◌, Bool, true, false, not, ◌&&◌, ◌||◌, String, List, [], ◌∷◌, Option, none, some,
  if◌then◌else◌, leb, str_eq, ◌==◌, is_some, keep, length,
}

pub record Lot : Type 0 where
  pub id : ℕ
  pub current_bid : Option ℕ
  pub current_bidder_id : Option String
  pub next_bid : ℕ
  pub bidding_ends_at : Option ℕ
  pub no_bid_deadline : Option ℕ

pub record OrderEntry : Type 0 where
  pub id : ℕ
  pub lot_state : String

pub record Snapshot : Type 0 where
  pub lot : Option Lot
  pub order : List OrderEntry
  pub increment : ℕ
  pub paused : Bool
  pub mode : String
  pub countdown_seconds : ℕ
  pub opening_window_seconds : ℕ

pub record Seat : Type 0 where
  pub balance : ℕ
  pub advanced : Bool
  pub disqualified : Bool

pub record Watcher : Type 0 where
  pub id : String
  pub role : String
  pub me : Option Seat

unfoldable pub eligible : Watcher → Bool
eligible w =
    str_eq w.role "participant"
    && elim w.me [ none ↦ false | some s ↦ s.advanced && not s.disqualified ]

-- `lot?.current_bidder_id === viewer.id`, of a lot.
unfoldable pub mine : Watcher → Lot → Bool
mine w lot = elim lot.current_bidder_id [ none ↦ false | some b ↦ str_eq b w.id ]

-- `me?.balance ?? 0`.
unfoldable pub balance : Watcher → ℕ
balance w = elim w.me [ none ↦ 0 | some s ↦ s.balance ]

unfoldable pub affordable : Watcher → Lot → Bool
unfolding balance
affordable w lot = leb lot.next_bid (balance w)

unfoldable pub steps_left : Snapshot → Watcher → Lot → ℕ
unfolding affordable balance
steps_left a w lot = if affordable w lot then (balance w - lot.next_bid) / a.increment else 0

unfoldable pub offline : Snapshot → Bool
offline a = str_eq a.mode "offline"

-- What stands under the lot: the button, with its label, or a line of text.
pub data Label : Type 0 where
  paused_label winning_label : Label
  bid_label : ℕ → Label

pub data Foot : Type 0 where
  in_the_room not_eligible observe : Foot
  button : (enabled : Bool) → Label → Foot

unfoldable pub foot : Snapshot → Watcher → Bool → Lot → Foot
unfolding offline eligible mine affordable
foot a w busy lot =
    if offline a
    then in_the_room
    else if eligible w
    then button (not (busy || (a.paused || (mine w lot || not (affordable w lot))))) (
        if a.paused
        then paused_label
        else if mine w lot
        then winning_label
        else bid_label lot.next_bid)
    else if str_eq w.role "participant"
    then not_eligible
    else observe

pub record Bid : Type 0 where
  pub lot_id : ℕ
  pub amount : ℕ

-- `bid()` on a click: a button that is disabled, or no button, posts nothing.
unfoldable pub pressed : Foot → Lot → Option Bid
pressed (button true label) lot = some (record { lot_id = lot.id; amount = lot.next_bid })
pressed _ lot = none

-- What a click on the page's button posts to `/api/bids`.
unfoldable pub clicked : Snapshot → Watcher → Bool → Option Bid
unfolding foot pressed
clicked a w busy = elim a.lot [ none ↦ none | some lot ↦ pressed (foot a w busy lot) lot ]

-- The ring's time and its whole, and how many of the order are in a state.
unfoldable ring_until : Snapshot → Lot → Option ℕ
ring_until a lot =
    if a.paused
    then none
    else if is_some lot.current_bid
    then lot.bidding_ends_at
    else lot.no_bid_deadline

unfoldable ring_total : Snapshot → Lot → ℕ
ring_total a lot = if is_some lot.current_bid then a.countdown_seconds else a.opening_window_seconds

unfoldable in_state : String → List OrderEntry → ℕ
in_state s l = length (keep (λ (o : OrderEntry). str_eq o.lot_state s) l)

-- `order.findIndex((o) => o.id === lot.id) + 1`: 0 where the lot is not in the order.
unfoldable position : ℕ → List OrderEntry → ℕ
position lot_id [] = 0
position lot_id (o ∷ rest) =
    let later = position lot_id rest in
    if o.id == lot_id then 1 else if later == 0 then 0 else later + 1

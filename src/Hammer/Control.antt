-- ===== src/Hammer/Control.antt =====
-- web/src/app/(app)/admin/auction/page.tsx: `AuctionControlPage`, the round as it was last read and the
-- order of the questions still to be offered, and `OfflineLot`, a sale recorded from the room. `Number`
-- is a parameter, as the whole number that it reads, if it reads one.
use codolympics.Prelude.{
  ℕ, zero, suc, ◌+◌, ℤ, pos, ltb_ℤ, Bool, true, false, not, ◌&&◌, ◌||◌, String, List, [], ◌∷◌,
  Option, none, some, if◌then◌else◌, leb, ◌==◌, or_else, keep, find, length, str_eq,
}
use codolympics.Widgets.ListEditor.{swap}

pub data LotState : Type 0 where
  pending on_block closed unsold withdrawn : LotState

pub record Lot : Type 0 where
  pub id : ℕ
  pub title : String
  pub base_price : ℕ
  pub lot_state : LotState

pub record Balance : Type 0 where
  pub id : String
  pub name : String
  pub coins : ℤ
  pub disqualified : Bool

pub record Control : Type 0 where
  pub is_paused : Bool
  pub offline : Bool
  pub lots : List Lot
  pub balances : List Balance

abbrev pub is_open : LotState → Bool
is_open on_block = true
is_open _ = false

abbrev is_pending : LotState → Bool
is_pending pending = true
is_pending _ = false

abbrev is_sold : LotState → Bool
is_sold closed = true
is_sold _ = false

unfoldable pub open_lot : Control → Option Lot
open_lot c = find (λ (l : Lot). is_open l.lot_state) c.lots

unfoldable settled : Control → List Lot
settled c = keep (λ (l : Lot). not (is_pending l.lot_state) && not (is_open l.lot_state)) c.lots

unfoldable sold : Control → ℕ
sold c = length (keep (λ (l : Lot). is_sold l.lot_state) c.lots)

abbrev ids : List Lot → List ℕ
ids [] = []
ids (l ∷ rest) = l.id ∷ ids rest

unfoldable pub pending_ids : Control → List ℕ
pending_ids c = ids (keep (λ (l : Lot). is_pending l.lot_state) c.lots)

-- `next.indexOf(id)`, `none` for -1.
unfoldable pub index_of : ℕ → List ℕ → Option ℕ
index_of id [] = none
index_of id (x ∷ rest) =
    let later = index_of id rest in
    if x == id then some 0 else elim later [ none ↦ none | some i ↦ some (suc i) ]

pub data Way : Type 0 where
  earlier later : Way

-- The order with place `i` changed with the one before or after it; `none` where there is none.
unfoldable pub moved_at : ℕ → Way → List ℕ → Option (List ℕ)
unfolding swap
moved_at zero earlier queue = none
moved_at (suc j) earlier queue = some (swap (suc j) j queue)
moved_at i later queue = if leb (length queue) (i + 1) then none else some (swap i (i + 1) queue)

-- `next` of `move(id, by)`; `none` where it returns.
unfoldable pub moved : ℕ → Way → List ℕ → Option (List ℕ)
unfolding index_of moved_at
moved id way queue = elim (index_of id queue) [ none ↦ none | some i ↦ moved_at i way queue ]

unfoldable same_order : List ℕ → List ℕ → Bool
same_order [] [] = true
same_order (a ∷ l) (b ∷ k) = let rest = same_order l k in a == b && rest
same_order _ _ = false

pub record Page : Type 0 where
  pub control : Control
  pub order : Option (List ℕ)
  pub winner : String
  pub price : String

unfoldable pub queue : Page → List ℕ
unfolding pending_ids
queue p = or_else p.order (pending_ids p.control)

-- `order.join()` differs from that of the questions still to come.
unfoldable pub is_dirty : Page → Bool
unfolding same_order pending_ids
is_dirty p = elim p.order [ none ↦ false | some o ↦ not (same_order o (pending_ids p.control)) ]

unfoldable pub move : ℕ → Way → Page → Page
unfolding moved queue
move id way p = elim (moved id way (queue p)) [
  | none ↦ p
  | some next ↦ record p { order = some next }
]

unfoldable pub load : Control → Page → Page
load c p = record p { control = c; order = none }

pub data Event : Type 0 where
  read : Control → Event
  shifted : ℕ → Way → Event
  discarded recorded : Event
  chose typed : String → Event

unfoldable pub step : Page → Event → Page
unfolding move load
step p (read c) = load c p
step p (shifted id way) = move id way p
step p discarded = record p { order = none }
step p recorded = record p { winner = ""; price = "" }
step p (chose v) = record p { winner = v }
step p (typed v) = record p { price = v }

unfoldable pub steps : Page → List Event → Page
unfolding step
steps p [] = p
steps p (e ∷ rest) = steps (step p e) rest

unfoldable pub eligible : List Balance → List Balance
eligible l = keep (λ (b : Balance). not b.disqualified) l

unfoldable pub chosen : String → List Balance → Option Balance
unfolding eligible
chosen winner l = find (λ (b : Balance). str_eq b.id winner) (eligible l)

-- Why the price that was typed will not do.
pub data Problem : Type 0 where
  not_whole below_base beyond_balance : Problem

-- What an act posts, each with the question's number but for the last.
pub data Act : Type 0 where
  record_sale : (lot : ℕ) → (participant : String) → (price : Option ℤ) → Act
  record_unsold withdraw : (lot : ℕ) → Act
  reorder : List ℕ → Act

-- The buttons: "Record the sale" and "Nobody bid" of the open question, "Withdraw" of one still to
-- come, and "Save order".
pub data Button : Type 0 where
  sale nobody_bid save_order : Button
  take_back : ℕ → Button

module _ (number : String → Option ℤ) (trim : String → String) where
  unfoldable pub is_valid : Lot → List Balance → (winner price : String) → Bool
  unfolding chosen
  is_valid lot balances winner price = elim (chosen winner balances) [
    | none ↦ false
    | some b ↦ elim (number price) [
      | none ↦ false
      | some asked ↦
          not (str_eq (trim price) "")
          && not (ltb_ℤ asked (pos lot.base_price))
          && not (ltb_ℤ b.coins asked)
    ]
  ]

  unfoldable pub problem : Lot → List Balance → (winner price : String) → Option Problem
  unfolding chosen
  problem lot balances winner price = elim (chosen winner balances) [
    | none ↦ none
    | some b ↦ if str_eq (trim price) "" then none else elim (number price) [
      | none ↦ some not_whole
      | some asked ↦
          if ltb_ℤ asked (pos lot.base_price)
          then some below_base
          else if ltb_ℤ b.coins asked
          then some beyond_balance
          else none
    ]
  ]

  -- What a button that can be pressed is there to post, at this render. Those that ask first post from
  -- their dialog (Recording).
  unfoldable pub offered : Page → Button → Option Act
  unfolding open_lot is_valid is_dirty queue
  offered p sale = elim (open_lot p.control) [
    | none ↦ none
    | some lot ↦
        if p.control.offline
          && not (p.control.is_paused || not (is_valid lot p.control.balances p.winner p.price))
        then some (record_sale lot.id p.winner (number p.price))
        else none
  ]
  offered p nobody_bid = elim (open_lot p.control) [
    | none ↦ none
    | some lot ↦
        if p.control.offline && not p.control.is_paused then some (record_unsold lot.id) else none
  ]
  offered p save_order = if is_dirty p then some (reorder (queue p)) else none
  offered p (take_back id) = some (withdraw id)

  -- `onAct` of "Record the sale" at this render, whether or not it can be pressed; `none` where the page
  -- does not draw it.
  unfoldable pub on_act : Page → Option Act
  unfolding open_lot
  on_act p = elim (open_lot p.control) [
    | none ↦ none
    | some lot ↦
        if p.control.offline then some (record_sale lot.id p.winner (number p.price)) else none
  ]

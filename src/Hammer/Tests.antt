-- ===== src/Hammer/Tests.antt =====
-- The organisers' page of the auction on concrete data.
use codolympics.Prelude.{
  ℕ, ℤ, pos, ◌≡◌, refl, true, false, String, [], ◌∷◌, ◌++◌, All, Option, none, some, if◌then◌else◌,
  str_eq,
}
use mathlib.Core.List.Perm
use codolympics.Hammer.Control.{
  Lot, Balance, Control, Page, LotState, open_lot, eligible, chosen, is_valid, Act, record_sale,
  sale, offered, on_act, load, pending_ids, queue, shifted, read, later, earlier, steps,
}
use codolympics.Hammer.Queue.{IsQueue, steps-IsQueue}
use codolympics.Widgets.Dialogs.{press, run}
use codolympics.Hammer.Recording.{
  Room, seen, typed, pressed, cancelled, confirmed, done, step, record_it, steps as moves,
}
use codolympics.Hammer.Confirmed.{IsAllowed, confirmed-IsAllowed}
use codolympics.Hammer.Unchecked.{unchecked_sale}

abbrev lot : ℕ → LotState → Lot
lot id s = record { id = id; title = "Sums"; base_price = 50; lot_state = s }

abbrev ada : Balance
ada = record { id = "ada"; name = "Ada"; coins = pos 120; disqualified = false }

abbrev room : Control
room = record {
  is_paused = false;
  offline = true;
  lots =
      lot 1 LotState.closed
      ∷ lot 2 LotState.on_block
      ∷ lot 3 LotState.pending
      ∷ lot 4 LotState.pending
      ∷ [];
  balances = ada ∷ [];
}

abbrev page : Page
page = record { control = room; order = none; winner = "ada"; price = "80" }

abbrev number : String → Option ℤ
number s = if str_eq s "80" then some (pos 80) else none

abbrev as_is : String → String
as_is s = s

page-IsQueue : IsQueue page
unfolding queue pending_ids
page-IsQueue = Perm.refl (3 ∷ 4 ∷ [])

steps-IsQueue_example :
    IsQueue (steps page (shifted 4 earlier ∷ shifted 3 later ∷ read room ∷ shifted 3 later ∷ []))
steps-IsQueue_example =
    steps-IsQueue page (shifted 4 earlier ∷ shifted 3 later ∷ read room ∷ shifted 3 later ∷ [])
      page-IsQueue

chosen-ada : chosen "ada" room.balances ≡ some ada
unfolding chosen eligible
chosen-ada = refl

abbrev recorded : Act
recorded = record_sale 2 "ada" (some (pos 80))

sold_to_ada : offered number as_is page sale ≡ some recorded
unfolding offered open_lot is_valid chosen eligible
sold_to_ada = refl

abbrev desk : Room
desk = record { page = page; button = record { busy = false; asking = false; acts = 0 }; sent = [] }

confirmed-IsAllowed_example :
    All
      (IsAllowed room)
      (moves number as_is desk
        (pressed ∷ cancelled ∷ typed "80" ∷ pressed ∷ confirmed ∷ done ∷ [])).sent
confirmed-IsAllowed_example =
    confirmed-IsAllowed number as_is desk
      (pressed ∷ cancelled ∷ typed "80" ∷ pressed ∷ confirmed ∷ done ∷ [])
      (tt, (tt, (tt, (tt, (tt, (tt, tt)))))) refl refl

abbrev held_room : Control
held_room = record room { is_paused = true }

on_block : open_lot held_room ≡ some (lot 2 LotState.on_block)
unfolding open_lot
on_block = refl

unchecked_sale_example :
    (offered number as_is (load held_room page) sale ≡ none)
    × ((moves number as_is desk (pressed ∷ seen held_room ∷ confirmed ∷ [])).sent
        ≡ [] ++ record_sale 2 "ada" (number "80") ∷ [])
unchecked_sale_example =
    unchecked_sale number as_is desk held_room (lot 2 LotState.on_block) recorded refl refl
      sold_to_ada on_block refl refl

sold_once : (moves number as_is desk (pressed ∷ confirmed ∷ confirmed ∷ [])).sent ≡ recorded ∷ []
unfolding moves step record_it on_act press run offered open_lot is_valid chosen eligible
sold_once = refl

-- ===== src/Hammer/Recording.antt =====
-- admin/auction/page.tsx, "Record the sale" of `OfflineLot`: an `ActionButton` that asks before it acts. What
-- it sends is what the page holds when the dialog's own button is pressed.
use codolympics.Prelude.{
  true, false, not, ◌&&◌, ℤ, String, List, [], ◌∷◌, ◌++◌, Option, none, some, if◌then◌else◌,
  is_some,
}
use codolympics.Widgets.Dialogs.{Press, press}
use codolympics.Widgets.Dialogs as Dialogs
use codolympics.Hammer.Control.{Control, Page, Act, sale, load, offered, on_act}

-- The page with that button, and what was sent by it, oldest first.
pub record Room : Type 0 where
  pub page : Page
  pub button : Dialogs.Button
  pub sent : List Act

-- The round read again, the two fields, the button, the two buttons of its dialog, the ends of its request
-- with the reading after it, and the end of a request whose button was lost in the meantime.
pub data Move : Type 0 where
  seen : Control → Move
  chose typed : String → Move
  pressed confirmed cancelled done refused lost_done : Move

module _ (number : String → Option ℤ) (trim : String → String) where
  -- A button that the page no longer draws loses its state.
  unfoldable pub redrawn : Room → Room
  redrawn r =
      if is_some (on_act number trim r.page)
      then r
      else record r { button = record r.button { busy = false; asking = false } }

  -- The dialog's button, while the dialog is open and no request is out.
  unfoldable pub record_it : Room → Room
  record_it r = elim (on_act number trim r.page) [
    | none ↦ r
    | some a ↦
        if r.button.asking && not r.button.busy
        then record r {
          button = press true false r.button Press.confirmed;
          sent = r.sent ++ a ∷ [];
        }
        else r
  ]

  -- The dialog is modal: while it is open the fields cannot be reached.
  unfoldable pub step : Room → Move → Room
  unfolding redrawn record_it
  step r (seen c) = redrawn (record r { page = load c r.page })
  step r (chose v) = if r.button.asking then r else record r { page = record r.page { winner = v } }
  step r (typed v) = if r.button.asking then r else record r { page = record r.page { price = v } }
  step r pressed = record r {
    button = press true (not (is_some (offered number trim r.page sale))) r.button Press.pressed;
  }
  step r confirmed = record_it r
  step r cancelled = record r { button = press true false r.button Press.cancelled }
  step r done =
      if r.button.busy
      then record r {
        page = record r.page { winner = ""; price = "" };
        button = press true false r.button Press.done;
      }
      else r
  step r lost_done = record r { page = record r.page { winner = ""; price = "" } }
  step r refused = record r { button = press true false r.button Press.failed }

  unfoldable pub steps : Room → List Move → Room
  unfolding step
  steps r [] = r
  steps r (m ∷ rest) = steps (step r m) rest

-- ===== src/Hammer/Unchecked.antt =====
-- admin/auction/page.tsx: what the dialog of "Record the sale" does not look at again.
use codolympics.Prelude.{
  ℤ, ◌≡◌, refl, ap, ◌∙◌, true, false, not, ◌&&◌, String, [], ◌∷◌, ◌++◌, Option, none, some, is_some,
  if_ind, arith,
}
use codolympics.Widgets.Dialogs.{Button, Press, press}
use codolympics.Hammer.Control.{
  Lot, Control, Act, record_sale, sale, open_lot, load, offered, on_act,
}
use codolympics.Hammer.Recording.{Room, seen, pressed, confirmed, redrawn, record_it, step, steps}
use codolympics.Hammer.Sales.{on_act_open, held-offered}

press-free :
    (b : Button) → b.busy ≡ false → press true false b Press.pressed ≡ record b { asking = true }
unfolding press
press-free b f =
    if_ind (λ (x : Button). x ≡ record b { asking = true }) (b.busy && not b.asking) b _
      (λ t. absurd (ground (arith, t))) (λ _. refl)

module _ (number : String → Option ℤ) (trim : String → String) where
  redrawn-drawn :
      (r : Room) (a : Act) → on_act number trim r.page ≡ some a → redrawn number trim r ≡ r
  unfolding redrawn
  redrawn-drawn r a e = rw e refl

  record_it-sent :
      (r : Room) (a : Act)
      → on_act number trim r.page ≡ some a
      → r.button.asking ≡ true
      → r.button.busy ≡ false
      → (record_it number trim r).sent ≡ r.sent ++ a ∷ []
  unfolding record_it
  record_it-sent r a e t f =
      rw (e, record_it)
        (if_ind (λ (q : Room). q.sent ≡ r.sent ++ a ∷ []) (r.button.asking && not r.button.busy) _ r
          (λ _. refl) (λ n. absurd (ground (arith, n))))

  pressed-open :
      (r : Room) (a : Act)
      → r.button.asking ≡ false
      → r.button.busy ≡ false
      → offered number trim r.page sale ≡ some a
      → step number trim r pressed ≡ record r { button = record r.button { asking = true } }
  unfolding step
  pressed-open r a shut free can =
      ap (λ (b : Button). record r { button = b })
        (by_offer (offered number trim r.page sale) r.button free can)
    where
      by_offer :
          (o : Option Act) (b : Button)
          → b.busy ≡ false
          → o ≡ some a
          → press true (not (is_some o)) b Press.pressed ≡ record b { asking = true }
      by_offer none b f e = absurd cc
      by_offer (some x) b f e = press-free b f

  seen_confirmed :
      (r : Room) (c : Control) (lot : Lot)
      → r.button.asking ≡ true
      → r.button.busy ≡ false
      → open_lot c ≡ some lot
      → c.offline ≡ true
      → (steps number trim r (seen c ∷ confirmed ∷ [])).sent
        ≡ r.sent ++ record_sale lot.id r.page.winner (number r.page.price) ∷ []
  unfolding steps step load
  seen_confirmed r c lot t f e o =
      let q : Room = record r { page = load c r.page } in
      let a : Act = record_sale lot.id r.page.winner (number r.page.price) in
      let act = on_act_open number trim q.page lot e o in
      ap (λ (x : Room). (record_it number trim x).sent) (redrawn-drawn q a act)
      ∙ record_it-sent q a act t f

  -- The dialog's button does not look again: where the auction is held while the dialog is open, and a
  -- question is on the block of the offline auction as it is read then, "Record the sale" can no longer be
  -- pressed, but the dialog's button sends the sale: of the question that is on the block by then, with the
  -- bidder and the price that were given before.
  pub unchecked_sale :
      (r : Room) (c : Control) (lot : Lot) (a : Act)
      → r.button.asking ≡ false
      → r.button.busy ≡ false
      → offered number trim r.page sale ≡ some a
      → open_lot c ≡ some lot
      → c.offline ≡ true
      → c.is_paused ≡ true
      → (offered number trim (load c r.page) sale ≡ none)
        × ((steps number trim r (pressed ∷ seen c ∷ confirmed ∷ [])).sent
            ≡ r.sent ++ record_sale lot.id r.page.winner (number r.page.price) ∷ [])
  unfolding steps load
  unchecked_sale r c lot a shut free can e o held = (
    held-offered number trim (load c r.page) lot e held,
    ap (λ (q : Room). (steps number trim q (seen c ∷ confirmed ∷ [])).sent)
          (pressed-open r a shut free can)
        ∙ seen_confirmed (record r { button = record r.button { asking = true } }) c lot refl free e
            o,
  )

-- ===== src/Hammer/Confirmed.antt =====
-- admin/auction/page.tsx: what "Record the sale" sends once its dialog is confirmed.
use codolympics.Prelude.{
  In, ℤ, ◌≡◌, refl, sym, ◌∙◌, subst, true, false, not, ◌&&◌, String, List, [], ◌∷◌, ◌++◌, Option,
  none, some, is_some, if◌then◌else◌, All, All-append, if_ind, ◌⊎◌, inl, inr, arith,
}
use codolympics.Widgets.Dialogs.{Button, Press, press, run}
use codolympics.Hammer.Control.{
  LotState, is_open, Lot, Control, Page, Act, record_sale, sale, open_lot, offered, on_act,
}
use codolympics.Rounds.Targets.{find-In}
use codolympics.Hammer.Recording.{
  Room, Move, seen, chose, typed, pressed, confirmed, cancelled, done, refused, lost_done,
  record_it, step, steps,
}
use codolympics.Hammer.Sales.{IsSale, offered-IsSale, offered-on_act}

-- The round is not read again, so that no button is lost either.
abbrev pub IsUndisturbed : Move → Type 0
IsUndisturbed (seen c) = ⊥
IsUndisturbed lost_done = ⊥
IsUndisturbed _ = Unit

-- A sale that the round allows.
abbrev pub IsAllowed : Control → Act → Type 0
IsAllowed c a =
    (lot : Lot) × (winner : String) × (asked : ℤ) × In lot c.lots
    × (lot.lot_state ≡ LotState.on_block)
    × (a ≡ record_sale lot.id winner (some asked))
    × (c.offline ≡ true)
    × (c.is_paused ≡ false)
    × IsSale lot c.balances winner asked

open_on_block : (s : LotState) → is_open s ≡ true → s ≡ LotState.on_block
open_on_block LotState.on_block h = refl
open_on_block LotState.pending h = absurd cc
open_on_block LotState.closed h = absurd cc
open_on_block LotState.unsold h = absurd cc
open_on_block LotState.withdrawn h = absurd cc

open_lot-In :
    (c : Control) (lot : Lot)
    → open_lot c ≡ some lot
    → In lot c.lots × (lot.lot_state ≡ LotState.on_block)
unfolding open_lot
open_lot-In c lot e =
    let (m, t) = find-In (λ (l : Lot). is_open l.lot_state) c.lots lot e in
    (m, open_on_block lot.lot_state t)

module _ (number : String → Option ℤ) (trim : String → String) where
  -- While the dialog is open, its button could be pressed now; and all that was sent is allowed.
  record Holds (c : Control) (r : Room) : Type 0 where
    round : r.page.control ≡ c
    ready : (r.button.asking ≡ false) ⊎ ((a : Act) × (offered number trim r.page sale ≡ some a))
    allowed : All (IsAllowed c) r.sent

  offered-IsAllowed :
      (p : Page) (a : Act) → offered number trim p sale ≡ some a → IsAllowed p.control a
  offered-IsAllowed p a h =
      let (lot, asked, e, made, o, u, s) = offered-IsSale number trim p a h in
      let (m, b) = open_lot-In p.control lot e in (lot, p.winner, asked, m, b, made, o, u, s)

  pressed-ready :
      (r : Room)
      → (r.button.asking ≡ false) ⊎ ((a : Act) × (offered number trim r.page sale ≡ some a))
      → ((step number trim r pressed).button.asking ≡ false)
        ⊎ ((a : Act) × (offered number trim r.page sale ≡ some a))
  unfolding step press
  pressed-ready r h = by_offer (offered number trim r.page sale) r.button h
    where
      by_offer :
          (o : Option Act) (b : Button)
          → (b.asking ≡ false) ⊎ ((a : Act) × (o ≡ some a))
          → ((press true (not (is_some o)) b Press.pressed).asking ≡ false)
            ⊎ ((a : Act) × (o ≡ some a))
      by_offer none b h = h
      by_offer (some a) b h = inr (a, refl)

  confirmed-asking : (b : Button) → (press true false b Press.confirmed).asking ≡ b.asking
  unfolding press run
  confirmed-asking b =
      if_ind (λ (x : Button). x.asking ≡ b.asking) (b.asking && not b.busy) _ b (λ _. refl)
        (λ _. refl)

  failed-asking : (b : Button) → (press true false b Press.failed).asking ≡ b.asking
  unfolding press
  failed-asking b = if_ind (λ (x : Button). x.asking ≡ b.asking) b.busy _ b (λ _. refl) (λ _. refl)

  cancelled-asking : (b : Button) → (press true false b Press.cancelled).asking ≡ false
  unfolding press
  cancelled-asking b = refl

  done-asking : (b : Button) → b.busy ≡ true → (press true false b Press.done).asking ≡ false
  unfolding press
  done-asking b t =
      if_ind (λ (x : Button). x.asking ≡ false) b.busy _ b (λ _. refl) (λ f. absurd cc)

  same-ready :
      (r : Room) (b : Button)
      → b.asking ≡ r.button.asking
      → (r.button.asking ≡ false) ⊎ ((a : Act) × (offered number trim r.page sale ≡ some a))
      → (b.asking ≡ false) ⊎ ((a : Act) × (offered number trim r.page sale ≡ some a))
  same-ready r b e (inl f) = inl (e ∙ f)
  same-ready r b e (inr x) = inr x

  act-is : (a b : Act) → some a ≡ some b → a ≡ b
  act-is a b e = cc

  -- What an open dialog sends is allowed.
  on_act-IsAllowed :
      (c : Control) (r : Room) (a : Act)
      → Holds c r
      → on_act number trim r.page ≡ some a
      → r.button.asking ≡ true
      → IsAllowed c a
  on_act-IsAllowed c r a h e t = elim h.ready [
    | inl f ↦ absurd cc
    | inr (x, q) ↦
        subst (IsAllowed c) (act-is x a (sym (offered-on_act number trim r.page x q) ∙ e))
          (subst (λ (k : Control). IsAllowed k x) h.round (offered-IsAllowed r.page x q))
  ]

  record_it-Holds : (c : Control) (r : Room) → Holds c r → Holds c (record_it number trim r)
  unfolding record_it
  record_it-Holds c r h = by_act (on_act number trim r.page) (λ a e t. on_act-IsAllowed c r a h e t)
    where
      by_act :
          (o : Option Act)
          → ((a : Act) → o ≡ some a → r.button.asking ≡ true → IsAllowed c a)
          → Holds c (elim o [
            | none ↦ r
            | some a ↦
                if r.button.asking && not r.button.busy
                then record r {
                  button = press true false r.button Press.confirmed;
                  sent = r.sent ++ a ∷ [];
                }
                else r
          ])
      by_act none k = h
      by_act (some a) k =
          if_ind (Holds c) (r.button.asking && not r.button.busy) _ r
            (λ t. record {
              round = h.round;
              ready =
                  same-ready r (press true false r.button Press.confirmed)
                    (confirmed-asking r.button) h.ready;
              allowed =
                  All-append (IsAllowed c) r.sent (a ∷ []) h.allowed
                    (k a refl (ground (arith, t)), tt);
            })
            (λ _. h)

  step-Holds :
      (c : Control) (r : Room) (m : Move)
      → IsUndisturbed m
      → Holds c r
      → Holds c (step number trim r m)
  unfolding step
  step-Holds c r (seen d) i h = absurd i
  step-Holds c r (chose v) i h =
      if_ind (Holds c) r.button.asking r (record r { page = record r.page { winner = v } }) (λ _. h)
        (λ f. record { round = h.round; ready = inl f; allowed = h.allowed })
  step-Holds c r (typed v) i h =
      if_ind (Holds c) r.button.asking r (record r { page = record r.page { price = v } }) (λ _. h)
        (λ f. record { round = h.round; ready = inl f; allowed = h.allowed })
  step-Holds c r pressed i h = record {
    round = h.round;
    ready = pressed-ready r h.ready;
    allowed = h.allowed;
  }
  step-Holds c r confirmed i h = record_it-Holds c r h
  step-Holds c r cancelled i h = record {
    round = h.round;
    ready = inl (cancelled-asking r.button);
    allowed = h.allowed;
  }
  step-Holds c r done i h =
      if_ind (Holds c) r.button.busy
        (record r {
          page = record r.page { winner = ""; price = "" };
          button = press true false r.button Press.done;
        })
        r
        (λ t. record { round = h.round; ready = inl (done-asking r.button t); allowed = h.allowed })
        (λ _. h)
  step-Holds c r lost_done i h = absurd i
  step-Holds c r refused i h = record {
    round = h.round;
    ready = same-ready r (press true false r.button Press.failed) (failed-asking r.button) h.ready;
    allowed = h.allowed;
  }

  steps-Holds :
      (c : Control) (r : Room) (l : List Move)
      → All IsUndisturbed l
      → Holds c r
      → Holds c (steps number trim r l)
  unfolding steps
  steps-Holds c r [] i h = h
  steps-Holds c r (m ∷ rest) (i, is) h =
      steps-Holds c (step number trim r m) rest is (step-Holds c r m i h)

  -- As long as the round is not read again, whatever is chosen, typed, pressed, confirmed and cancelled and
  -- however the requests end, every sale that is sent is of the question on the block, in an offline auction
  -- that is not held, to a bidder who is not disqualified, at a whole price from the base price up to what
  -- the bidder has; the page begins with the dialog shut and nothing sent.
  pub confirmed-IsAllowed :
      (r : Room) (l : List Move)
      → All IsUndisturbed l
      → r.button.asking ≡ false
      → r.sent ≡ []
      → All (IsAllowed r.page.control) (steps number trim r l).sent
  confirmed-IsAllowed r l i shut none_sent =
      (steps-Holds r.page.control r l i (record {
        round = refl;
        ready = inl shut;
        allowed = subst (All (IsAllowed r.page.control)) (sym none_sent) tt;
      })).allowed

-- ===== src/Arena/Bids.antt =====
-- auction-floor.tsx: which bids the page can place.
use codolympics.Prelude.{
  ℕ, ◌+◌, ◌*◌, ◌≤◌, ◌<◌, ◌≡◌, refl, sym, subst, ◌↔◌, Bool, true, false, not, ◌&&◌, ◌||◌, Option,
  none, some, if◌then◌else◌, leb, leb→le, str_eq, str_eq_true, str_eq_false, str_eq_refl, ap, ◌≢◌,
  String, arith,
}
use text.Mathlib.TextEquality.{eq_iff}
use codolympics.Arena.Auction.{
  Seat, Lot, Snapshot, Watcher, eligible, mine, balance, affordable, steps_left, offline, foot, Bid,
  clicked, pressed, Label, paused_label, winning_label, bid_label, in_the_room, not_eligible,
  observe, button,
}

some-injective {ℓ} : {A : Type ℓ} {x y : A} → some x ≡ some y → x ≡ y
some-injective e = cc

and_true : (a b : Bool) → (a && b) ≡ true → (a ≡ true) × (b ≡ true)
and_true a b h = ground arith

and_false : (a : Bool) → (a && false) ≡ true → ⊥
and_false a h = ground arith

false_of_not : (b : Bool) → not b ≡ true → b ≡ false
false_of_not b h = ground arith

abbrev Fit : Seat → Type 0
Fit s = (s.advanced && not s.disqualified) ≡ true

le→leb : (n m : ℕ) → n ≤ m → leb n m ≡ true
le→leb n m h = ground arith

-- The page's conditions on a bid for a lot, as its tests have them.
abbrev Allowed : Snapshot → Watcher → Bool → Lot → Type 0
Allowed a w busy lot =
    (offline a ≡ false)
    × (eligible w ≡ true)
    × (busy ≡ false)
    × (a.paused ≡ false)
    × (mine w lot ≡ false)
    × (lot.next_bid ≤ balance w)

-- The same conditions in full: the auction runs on the page and is not paused, no bid is on its way, and
-- the viewer is a participant who has advanced, is not disqualified, does not hold the highest bid and has
-- the coins.
abbrev pub MayBid : Snapshot → Watcher → Bool → Lot → Type 0
MayBid a w busy lot =
    (s : Seat) × (w.me ≡ some s)
    × (w.role ≡ "participant")
    × (s.advanced ≡ true)
    × (s.disqualified ≡ false)
    × (lot.next_bid ≤ s.balance)
    × (a.mode ≢ "offline")
    × (a.paused ≡ false)
    × (busy ≡ false)
    × (lot.current_bidder_id ≢ some w.id)

seat_iff :
    (w : Watcher) (n : ℕ)
    → ((eligible w ≡ true) × (n ≤ balance w)) ↔ (
        (s : Seat) × (w.me ≡ some s)
        × (w.role ≡ "participant")
        × (s.advanced ≡ true)
        × (s.disqualified ≡ false)
        × (n ≤ s.balance))
unfolding eligible balance
seat_iff w n = by_seat w.me
  where
    part : Bool
    part = str_eq w.role "participant"

    by_seat :
        (o : Option Seat)
        → (((part && elim o [ none ↦ false | some s ↦ s.advanced && not s.disqualified ]) ≡ true)
            × (n ≤ elim o [ none ↦ 0 | some s ↦ s.balance ]))
          ↔ ((s : Seat) × (o ≡ some s)
              × (w.role ≡ "participant")
              × (s.advanced ≡ true)
              × (s.disqualified ≡ false)
              × (n ≤ s.balance))
    by_seat none = (λ (e, l). absurd (and_false part e), λ (s, e, _, _, _, _). absurd cc)
    by_seat (some s) = (
      λ (e, l).
          let (p, q) = and_true part (s.advanced && not s.disqualified) e in
          let (x, y) = and_true s.advanced (not s.disqualified) q in
          (s, refl, str_eq_true w.role "participant" p, x, false_of_not s.disqualified y, l),
      λ (s', e, r, x, y, l).
          let same : s' ≡ s = sym (some-injective e) in
          (
            rw (r, str_eq_refl "participant") (subst Fit same (rw (x, y) refl)),
            subst (λ (t : Seat). n ≤ t.balance) same l,
          ),
    )

mine_iff : (w : Watcher) (lot : Lot) → (mine w lot ≡ false) ↔ (lot.current_bidder_id ≢ some w.id)
unfolding mine
mine_iff w lot = by_bidder lot.current_bidder_id
  where
    by_bidder :
        (o : Option String)
        → (elim o [ none ↦ false | some b ↦ str_eq b w.id ] ≡ false) ↔ (o ≢ some w.id)
    by_bidder none = (λ h e. absurd cc, λ h. refl)
    by_bidder (some b) = (
      λ h e. ground (arith, eq_iff b w.id, some-injective e),
      λ h. str_eq_false b w.id (λ e. h (ap some e)),
    )

Allowed-MayBid :
    (a : Snapshot) (w : Watcher) (busy : Bool) (lot : Lot)
    → Allowed a w busy lot ↔ MayBid a w busy lot
unfolding offline
Allowed-MayBid a w busy lot =
    let (seat, seat') = seat_iff w lot.next_bid in
    let (free, free') = mine_iff w lot in
    (
      (λ (o, e, u, p, m, l).
          let (s, q, r, x, y, k) = seat (e, l) in
          (s, q, r, x, y, k, (λ h. ground (arith, eq_iff a.mode "offline")), p, u, free m)),
      (λ (s, q, r, x, y, k, o, p, u, m).
          let (e, l) = seat' (s, q, r, x, y, k) in
          (str_eq_false a.mode "offline" o, e, u, p, free' m, l)),
    )

foot_flags :
    (off el bu pa mi af part : Bool) (l m n : Label) (lot : Lot) (b : Bid)
    → (pressed
          (if off
            then in_the_room
            else if el
            then button (not (bu || (pa || (mi || not af)))) (if pa then l else if mi then m else n)
            else if part
            then not_eligible
            else observe)
          lot
        ≡ some b)
      ↔ ((off ≡ false)
          × (el ≡ true)
          × (bu ≡ false)
          × (pa ≡ false)
          × (mi ≡ false)
          × (af ≡ true)
          × (b ≡ record { lot_id = lot.id; amount = lot.next_bid }))
unfolding pressed
foot_flags off el bu pa mi af part l m n lot b = ground arith

foot-Allowed :
    (a : Snapshot) (w : Watcher) (busy : Bool) (lot : Lot) (b : Bid)
    → (pressed (foot a w busy lot) lot ≡ some b)
      ↔ (Allowed a w busy lot × (b ≡ record { lot_id = lot.id; amount = lot.next_bid }))
unfolding foot affordable
foot-Allowed a w busy lot b =
    let (into, from) =
      foot_flags (offline a) (eligible w) busy a.paused (mine w lot) (affordable w lot)
        (str_eq w.role "participant") paused_label winning_label (bid_label lot.next_bid) lot b in
    (
      (λ h. let (o, e, u, p, m, f, q) = into h in ((o, e, u, p, m, leb→le _ _ f), q)),
      (λ ((o, e, u, p, m, f), q). from (o, e, u, p, m, le→leb _ _ f, q)),
    )

foot_iff :
    (a : Snapshot) (w : Watcher) (busy : Bool) (lot : Lot) (b : Bid)
    → (pressed (foot a w busy lot) lot ≡ some b)
      ↔ (MayBid a w busy lot × (b ≡ record { lot_id = lot.id; amount = lot.next_bid }))
foot_iff a w busy lot b =
    let (into, from) = foot-Allowed a w busy lot b in
    let (full, back) = Allowed-MayBid a w busy lot in
    ((λ h. let (x, q) = into h in (full x, q)), (λ (x, q). from (back x, q)))

-- A click posts a bid for a lot exactly when the lot is on offer, the auction runs on the page and is
-- not paused, no bid of theirs is on its way, and the viewer is a participant who has advanced, is not
-- disqualified, does not hold the highest bid and has the coins; and the bid is for that lot at its next
-- price.
pub clicked_iff :
    (a : Snapshot) (w : Watcher) (busy : Bool) (b : Bid)
    → (clicked a w busy ≡ some b) ↔ (
        (lot : Lot) × (a.lot ≡ some lot)
        × MayBid a w busy lot
        × (b ≡ record { lot_id = lot.id; amount = lot.next_bid }))
unfolding clicked
clicked_iff a w busy b = by_lot a.lot
  where
    by_lot :
        (o : Option Lot)
        → (elim o [ none ↦ none | some lot ↦ pressed (foot a w busy lot) lot ] ≡ some b) ↔ (
            (lot : Lot) × (o ≡ some lot)
            × MayBid a w busy lot
            × (b ≡ record { lot_id = lot.id; amount = lot.next_bid }))
    by_lot none = (λ h. cc, λ (lot, e, _, _). cc)
    by_lot (some lot) =
        let (into, from) = foot_iff a w busy lot b in
        (
          (λ h. (lot, refl, (into h).0, (into h).1)),
          (λ (lot', e, h, q). from (
              subst
                (λ (k : Lot).
                  MayBid a w busy k × (b ≡ record { lot_id = k.id; amount = k.next_bid }))
                (sym (some-injective e)) (h, q))),
        )

-- With a positive step and a balance that pays for the next bid, the steps said to be left are all
-- that the balance pays for after that bid.
pub steps_left_lem :
    (a : Snapshot) (w : Watcher) (lot : Lot)
    → 0 < a.increment
    → lot.next_bid ≤ balance w
    → (lot.next_bid + steps_left a w lot * a.increment ≤ balance w)
      × (balance w < lot.next_bid + (steps_left a w lot + 1) * a.increment)
unfolding steps_left affordable
steps_left_lem a w lot pos le =
    let t : affordable w lot ≡ true = le→leb _ _ le in rw t (omega arith)

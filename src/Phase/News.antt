-- ===== src/Phase/News.antt =====
-- shell.tsx, `LiveToasts`: what is announced, and that it is announced once.
use codolympics.Prelude.{
  ◌≡◌, ◌≢◌, refl, Bool, true, false, String, Option, none, some, arith, ◌↔◌, str_eq_refl,
}
use text.Mathlib.TextEquality.{eq_iff}
use codolympics.Phase.Nav.{SeenPhase, on_phase, PrevBidder, unknown, known, on_auction}

-- Nothing is announced for a "phase" event that says what the last one said.
on_phase_repeat :
    (seen : Option SeenPhase) (phase : String) (is_open : Bool)
    → let (seen', first) = on_phase seen phase is_open in
      on_phase seen' phase is_open ≡ (seen', none)
unfolding on_phase
on_phase_repeat none phase true = ground (arith, str_eq_refl phase)
on_phase_repeat none phase false = ground (arith, str_eq_refl phase)
on_phase_repeat (some b) phase true = ground (arith, str_eq_refl phase)
on_phase_repeat (some b) phase false = ground (arith, str_eq_refl phase)

-- "You have been outbid" is announced exactly when the viewer held the highest bid at the last event
-- and someone else, with a non-empty id, holds it now.
pub on_auction_iff :
    (me : String) (prev : PrevBidder) (lot : Option (Option String))
    → ((on_auction me prev lot).1 ≡ true)
      ↔ ((prev ≡ known (some me)) × ((b : String) × (lot ≡ some (some b)) × (b ≢ "") × (b ≢ me)))
unfolding on_auction
on_auction_iff me prev none = ((λ h. cc), λ t. let (b, e, x, y) = t.1 in cc)
on_auction_iff me prev (some none) = ((λ h. cc), λ t. let (b, e, x, y) = t.1 in cc)
on_auction_iff me unknown (some (some b)) = ((λ h. cc), λ t. cc)
on_auction_iff me (known none) (some (some b)) = ((λ h. cc), λ t. cc)
on_auction_iff me (known (some p)) (some (some b)) = (
  (λ h. (
    ground (arith, eq_iff p me),
    (b, refl, ground (arith, eq_iff b ""), ground (arith, eq_iff b me)),
  )),
  λ t. let (b', q, x, y) = t.1 in ground (arith, eq_iff p me, eq_iff b "", eq_iff b me),
)

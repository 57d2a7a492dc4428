-- ===== src/Office/Dashboard.antt =====
-- web/src/app/(app)/admin/page.tsx: the organisers' dashboard, its panels, the control of the phase and that
-- of the auction.
use codolympics.Prelude.{
  ℕ, ◌+◌, ◌-◌, Bool, true, false, not, ◌||◌, String, List, [], ◌∷◌, ◌++◌, Option, none, some,
  if◌then◌else◌, ltb, ◌==◌, length, keep, includes, is_some, str_eq, drop,
}
use codolympics.Office.Standings.{P1Row}

-- `/api/admin/health`, `/api/admin/contest/phase` and `/api/grade/queue`.
pub record Health : Type 0 where
  pub judge : Option String
  pub internal_errors : ℕ

pub record Checks : Type 0 where
  pub next : Option String
  pub blockers : List String
  pub warnings : List String

pub record Queue : Type 0 where
  pub ungraded : ℕ
  pub total : ℕ

unfoldable judge_down : Option Health → Bool
judge_down none = false
judge_down (some h) = elim h.judge [ none ↦ true | some s ↦ not (str_eq s "ok") ]

-- The alert above the page.
pub data Alert : Type 0 where
  quiet judge_unreachable : Alert
  judge_errors : ℕ → Alert

unfoldable alert : Option Health → Alert
unfolding judge_down
alert none = quiet
alert (some h) =
    if judge_down (some h)
    then judge_unreachable
    else if ltb 0 h.internal_errors
    then judge_errors h.internal_errors
    else quiet

-- The panels below the controls.
pub data Panel : Type 0 where
  registration_panel : Panel
  phase1_panel : (phase : String) → Panel
  review_panel live_auction phase2_board : Panel

abbrev pub panel_if : Bool → Panel → List Panel
panel_if b p = if b then p ∷ [] else []

unfoldable pub panels : (phase : String) → List Panel
panels phase =
    panel_if (str_eq phase "registration") registration_panel
    ++ (panel_if (str_eq phase "p1_puzzles" || str_eq phase "p1_hacking") (phase1_panel phase)
        ++ (panel_if (str_eq phase "review") review_panel
            ++ (panel_if (includes ("auction1" ∷ "auction2" ∷ []) phase) live_auction
                ++ panel_if
                    (includes ("auction1" ∷ "coding1" ∷ "auction2" ∷ "final" ∷ "ended" ∷ []) phase)
                    phase2_board)))

-- What the control of the phase offers.
pub data Offer : Type 0 where
  advance : (next : String) → (disabled : Bool) → Offer
  extend : Offer
  set_registration : (is_open : Bool) → Offer

pub data Control : Type 0 where
  only_told : (next : Option String) → Control
  over : Control
  offers : (blockers warnings : List String) → List Offer → Control

abbrev offer_if : Bool → Offer → List Offer
offer_if b o = if b then o ∷ [] else []

abbrev has_any : {A : Type 0} → List A → Bool
has_any [] = false
has_any (x ∷ rest) = true

unfoldable pub control :
    (is_admin : Bool)
    → (phase : String) → (ends_at : Option String) → (registration_open : Bool) → Option Checks
    → Control
control is_admin phase ends_at is_open none = if is_admin then over else only_told none
control is_admin phase ends_at is_open (some k) =
    if is_admin
    then elim k.next [
      | none ↦ over
      | some next ↦ offers k.blockers k.warnings (
          advance next (has_any k.blockers)
          ∷ (offer_if (is_some ends_at) extend
              ++ offer_if (str_eq phase "registration") (set_registration (not is_open))))
    ]
    else only_told k.next

-- The open lot, as the contest's state has it, and the auction.
pub record Lot : Type 0 where
  pub id : ℕ
  pub current_bid : Option ℕ
  pub bidding_ends_at : Option ℕ
  pub no_bid_deadline : Option ℕ

pub record Ordered : Type 0 where
  pub id : ℕ
  pub is_closed : Bool

pub record Auction : Type 0 where
  pub lot : Option Lot
  pub order : List Ordered
  pub offline : Bool
  pub paused : Bool

-- Whether a clock runs on the open lot.
unfoldable pub timer_on : Option Lot → Bool
timer_on none = false
timer_on (some l) =
    if is_some l.current_bid then is_some l.bidding_ends_at else is_some l.no_bid_deadline

-- `findIndex(...) + 1`, 0 where the lot is not in the order.
unfoldable pub place_of : ℕ → List Ordered → ℕ
place_of id [] = 0
place_of id (o ∷ rest) =
    let later = place_of id rest in if o.id == id then 1 else if later == 0 then 0 else later + 1

unfoldable position : Auction → ℕ
unfolding place_of
position a = elim a.lot [ none ↦ 0 | some l ↦ place_of l.id a.order ]

unfoldable closed_lots : Auction → ℕ
closed_lots a = length (keep (λ (o : Ordered). o.is_closed) a.order)

pub data Order : Type 0 where
  close_bidding stop_timer restart_timer pause resume : Order

-- The buttons of the card, each with whether it is disabled.
unfoldable pub buttons : Auction → List (Order × Bool)
unfolding timer_on
buttons a =
    (close_bidding, not (is_some a.lot))
    ∷ ((if a.offline
          then []
          else ((if timer_on a.lot then stop_timer else restart_timer), not (is_some a.lot)) ∷ [])
        ++ (((if a.paused then resume else pause), false) ∷ []))

-- The figures of the panels.
unfoldable finished : List P1Row → ℕ
finished rows = length (keep (λ (r : P1Row). is_some r.submitted_at) rows)

unfoldable scoring : List P1Row → ℕ
scoring rows = length (keep (λ (r : P1Row). ltb 0 r.points) rows)

unfoldable graded : Option Queue → ℕ
graded none = 0
graded (some q) = q.total - q.ungraded

-- The eight who signed up last, the latest first.
unfoldable reversed : {A : Type 0} → List A → List A → List A
reversed [] acc = acc
reversed (x ∷ rest) acc = reversed rest (x ∷ acc)

unfoldable latest : {A : Type 0} → List A → List A
unfolding reversed
latest rows = reversed (drop (length rows - 8) rows) []

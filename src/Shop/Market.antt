-- ===== src/Shop/Market.antt =====
-- web/src/app/(app)/marketplace/page.tsx, `MarketplacePage`: what may be bought, whom a powerup may be
-- aimed at, and the requests that are sent. A request's id is made by `newRequestId` at each click and
-- comes with it; what the reload after a request reads is an event of its own.
use codolympics.Prelude.{
  ℕ, ◌+◌, Bool, true, false, not, ◌&&◌, ◌||◌, String, List, [], ◌∷◌, ◌++◌, Option, none, some,
  if◌then◌else◌, ◌==◌, is_some,
}

pub data ItemKind : Type 0 where
  blackout shield : ItemKind

pub record Item : Type 0 where
  pub id : ℕ
  pub kind : ItemKind
  pub price : ℕ
  pub owned : ℕ
  pub buy_blocked : Option String
  pub use_blocked : Option String

pub record Target : Type 0 where
  pub id : String
  pub disqualified : Bool
  pub off_limits : Bool

pub record Market : Type 0 where
  pub in_phase2 : Bool
  pub items : List Item
  pub targets : List Target

pub data Request : Type 0 where
  buy : (item : ℕ) → (request_id : String) → Request
  use_on : (item : ℕ) → (target request_id : String) → Request

-- `sent` is what has been posted, oldest first.
pub record Page : Type 0 where
  pub market : Option Market
  pub busy : Option ℕ
  pub aiming : Option Item
  pub sent : List Request

abbrev pub is_busy_with : Option ℕ → ℕ → Bool
is_busy_with none n = false
is_busy_with (some k) n = k == n

abbrev pub is_blackout : ItemKind → Bool
is_blackout blackout = true
is_blackout shield = false

-- Whether the page shows its offers at all.
unfoldable pub on_sale : Page → Bool
on_sale p = elim p.market [ none ↦ false | some m ↦ m.in_phase2 ]

-- `disabled={Boolean(item.buy_blocked) || busy === item.id}`, and the Use button.
unfoldable pub can_buy : Page → Item → Bool
unfolding on_sale
can_buy p i = on_sale p && not (is_some i.buy_blocked || is_busy_with p.busy i.id)

unfoldable pub can_aim : Page → Item → Bool
unfolding on_sale
can_aim p i =
    on_sale p && is_blackout i.kind && not (is_some i.use_blocked || is_busy_with p.busy i.id)

unfoldable pub can_hit : Page → Target → Bool
unfolding on_sale
can_hit p t = on_sale p && not (t.disqualified || t.off_limits || is_some p.busy)

-- `ended` is the `finally` of either request, whichever it is; `landed` is a powerup that was used, and
-- closes the dialog.
pub data Event : Type 0 where
  read : Market → Event
  bought : Item → (request_id : String) → Event
  aimed : Item → Event
  hit : Target → (request_id : String) → Event
  landed closed ended : Event

unfoldable pub step : Page → Event → Page
unfolding can_buy can_aim can_hit
step p (read m) = record p { market = some m }
step p (bought i id) =
    if can_buy p i then record p { busy = some i.id; sent = p.sent ++ buy i.id id ∷ [] } else p
step p (aimed i) = if can_aim p i then record p { aiming = some i } else p
step p (hit t id) = elim p.aiming [
  | none ↦ p
  | some i ↦
      if can_hit p t
      then record p { busy = some i.id; sent = p.sent ++ use_on i.id t.id id ∷ [] }
      else p
]
step p landed = record p { aiming = none }
step p closed = record p { aiming = none }
step p ended = record p { busy = none }

unfoldable pub steps : Page → List Event → Page
unfolding step
steps p [] = p
steps p (e ∷ rest) = steps (step p e) rest

-- Powerups held.
unfoldable held : List Item → ℕ
held [] = 0
held (i ∷ rest) = i.owned + held rest

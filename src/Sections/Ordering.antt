-- ===== src/Sections/Ordering.antt =====
-- web/src/components/admin/phase1-order.tsx: `OrderPanel`, the order of one section's questions. The list
-- is that of ui/reorder-list.tsx, which reports an order and is disabled while a save is out.
use codolympics.Prelude.{
  ℕ, Bool, true, false, not, ◌&&◌, String, List, [], ◌∷◌, Option, none, some, if◌then◌else◌, map,
  ◌==◌,
}
use codolympics.Widgets.Reorder.{Drag, Gesture, gesture}

pub record Row : Type 0 where
  pub id : ℕ
  pub title : String
  pub published : Bool
  pub voided : Bool
  pub points : ℕ
  pub kind : Option String

abbrev pub row_id : Row → ℕ
row_id r = r.id

unfoldable pub same_ids : List ℕ → List ℕ → Bool
same_ids [] [] = true
same_ids (a ∷ l) (b ∷ k) = let rest = same_ids l k in a == b && rest
same_ids _ _ = false

-- `sent` has the latest order that was sent first; `drag` is the list's own state.
pub record Page : Type 0 where
  pub rows : Option (List Row)
  pub order : List Row
  pub busy : Bool
  pub drag : Drag
  pub sent : List (List ℕ)

-- `dirty`: the ids, joined, differ.
unfoldable pub is_dirty : Page → Bool
unfolding same_ids
is_dirty p = elim p.rows [
  | none ↦ false
  | some rows ↦ not (same_ids (map row_id p.order) (map row_id rows))
]

-- The questions were read; a gesture on the list; the footer's buttons; the ends of a save, after which
-- the questions are read again before the list is enabled.
pub data Event : Type 0 where
  loaded : List Row → Event
  gestured : Gesture → Event
  discarded pressed_save : Event
  saved : List Row → Event
  refused : Event

unfoldable pub load : List Row → Page → Page
load rows p = record p { rows = some rows; order = rows }

abbrev pub with_order : Page → Drag × Option (List Row) → Page
with_order p (d, none) = record p { drag = d }
with_order p (d, some next) = record p { drag = d; order = next }

unfoldable pub save : Page → Page
save p = record p { busy = true; sent = map row_id p.order ∷ p.sent }

unfoldable pub discard : Page → Page
discard p = elim p.rows [ none ↦ p | some rows ↦ record p { order = rows } ]

unfoldable pub step : Page → Event → Page
unfolding load is_dirty gesture save discard
step p (loaded rows) = load rows p
step p (gestured g) = with_order p (gesture p.busy p.order p.drag g)
step p discarded = if is_dirty p && not p.busy then discard p else p
step p pressed_save = if is_dirty p && not p.busy then save p else p
step p (saved rows) = record (load rows p) { busy = false }
step p refused = record p { busy = false }

unfoldable pub steps : Page → List Event → Page
unfolding step
steps p [] = p
steps p (e ∷ es) = steps (step p e) es

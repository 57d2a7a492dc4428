-- ===== src/Sections/Review.antt =====
-- web/src/components/admin/phase1-lists.tsx: `Review`, which selects who advances to Phase 2. The number
-- typed as the top N is a natural number. `chosen`, a set of ids, is a list of them in the set's order.
use codolympics.Prelude.{
  ℕ, Bool, false, not, ◌&&◌, String, List, [], ◌∷◌, ◌++◌, Option, none, some, if◌then◌else◌, leb,
  ◌==◌, keep, includes, is_some, length, map, str_eq,
}
use codolympics.Sections.Lists.{distinct}

-- `Standing`.
pub record Standing : Type 0 where
  pub participant_id : String
  pub name : String
  pub points : ℕ
  pub provisional : Bool
  pub submitted_at : Option String
  pub disqualified : Bool
  pub advanced : Option Bool
  pub rank : ℕ

pub record Post : Type 0 where
  pub participant_ids : List String
  pub reason : String

-- `sent` has the latest request first.
pub record Page : Type 0 where
  pub rows : Option (List Standing)
  pub chosen : List String
  pub sent : List Post

abbrev pub id_of : Standing → String
id_of s = s.participant_id

unfoldable pub has_advanced : Standing → Bool
has_advanced s = elim s.advanced [ none ↦ false | some b ↦ b ]

-- `n.add(id)` and `n.delete(id)`.
unfoldable pub add : String → List String → List String
add id l = if includes l id then l else l ++ id ∷ []

unfoldable pub delete : String → List String → List String
delete id l = keep (λ (y : String). not (str_eq y id)) l

unfoldable pub toggle : String → Bool → List String → List String
unfolding add delete
toggle id on chosen = if on then add id chosen else delete id chosen

unfoldable pub advanced_ids : List Standing → List String
unfolding has_advanced
advanced_ids rows = map id_of (keep has_advanced rows)

unfoldable pub eligible : List Standing → List Standing
eligible rows = keep (λ (r : Standing). not r.disqualified) rows

unfoldable pub within : ℕ → Standing → Bool
within n r = leb 1 r.rank && leb r.rank n

-- `pickTop`, for a number other than 0.
unfoldable pub top : ℕ → List Standing → List String
unfolding distinct eligible within
top n rows = distinct (map id_of (keep (within n) (eligible rows)))

-- The figures above the list.
unfoldable provisional : List Standing → ℕ
provisional rows = length (keep (λ (r : Standing). r.provisional) rows)

unfoldable decided : List Standing → ℕ
decided rows = length (keep (λ (r : Standing). is_some r.advanced) rows)

-- The engine's standings were read; a row's box was clicked; "Select top"; "Clear"; a reason confirmed.
pub data Event : Type 0 where
  loaded : List Standing → Event
  clicked : Standing → Event
  picked : ℕ → Event
  cleared : Event
  confirmed : (reason : String) → Event

-- The box of a disqualified row is disabled; a click on another asks for what is not there.
unfoldable pub click : Standing → Page → Page
unfolding toggle
click s p = if s.disqualified then p else record p {
  chosen = toggle s.participant_id (not (includes p.chosen s.participant_id)) p.chosen;
}

unfoldable pub step : Page → Event → Page
unfolding distinct advanced_ids top click
step p (loaded rows) = record p { rows = some rows; chosen = distinct (advanced_ids rows) }
step p (clicked s) = click s p
step p (picked n) = elim p.rows [
  | none ↦ p
  | some rows ↦ if n == 0 then p else record p { chosen = top n rows }
]
step p cleared = record p { chosen = [] }
step p (confirmed reason) = record p {
  sent = record { participant_ids = p.chosen; reason = reason } ∷ p.sent;
}

unfoldable pub steps : Page → List Event → Page
unfolding step
steps p [] = p
steps p (e ∷ es) = steps (step p e) es

-- ===== src/Widgets/Reorder.antt =====
-- web/src/components/ui/reorder-list.tsx: putting a list in order by dragging, buttons or arrow keys.
use codolympics.Prelude.{
  ℕ, zero, suc, ◌+◌, Bool, ◌||◌, String, List, [], ◌∷◌, Option, none, some, if◌then◌else◌, leb,
  ◌==◌, ℤ, pos, negsuc, length, get_elem?, str_eq,
}

-- `next.splice(from, 1)`: the list without the row.
unfoldable pub remove_at : {T : Type 0} → ℕ → List T → List T
remove_at from [] = []
remove_at zero (x ∷ xs) = xs
remove_at (suc from) (x ∷ xs) = x ∷ remove_at from xs

-- `next.splice(to, 0, row)`.
unfoldable pub insert_at : {T : Type 0} → ℕ → T → List T → List T
insert_at to row [] = row ∷ []
insert_at zero row (x ∷ xs) = row ∷ x ∷ xs
insert_at (suc to) row (x ∷ xs) = x ∷ insert_at to row xs

-- `move(from, to)`, at a position inside the list; `none` where it returns early.
unfoldable pub move_within : {T : Type 0} → (from to : ℕ) → List T → Option (List T)
unfolding remove_at insert_at
move_within from to items =
    if leb (length items) to || from == to then none else elim (get_elem? items from) [
      | none ↦ none
      | some row ↦ some (insert_at to row (remove_at from items))
    ]

-- The list that `onChange` is given; `none` where it is not called.
unfoldable pub move : {T : Type 0} → (from : ℕ) → (to : ℤ) → List T → Option (List T)
unfolding move_within
move from (negsuc n) items = none
move from (pos to) items = move_within from to items

pub record Drag : Type 0 where
  pub dragging : Option ℕ
  pub over : Option ℕ

pub data Gesture : Type 0 where
  drag_start : ℕ → Gesture
  drag_end : Gesture
  drag_over : ℕ → Gesture
  drop_on : ℕ → Gesture
  key : (i : ℕ) → String → Gesture
  move_up move_down : ℕ → Gesture

-- `i - 1`, as the arrow key and the button compute it.
abbrev pub before : ℕ → ℤ
before zero = negsuc 0
before (suc i) = pos i

-- A gesture on a row: the drag afterwards, and the new order if one is reported. A disabled list cannot
-- be dragged and its buttons are inert.
unfoldable pub gesture : {T : Type 0} → Bool → List T → Drag → Gesture → Drag × Option (List T)
unfolding move
gesture disabled items d (drag_start i) =
    if disabled then (d, none) else (record d { dragging = some i }, none)
gesture disabled items d drag_end = (record { dragging = none; over = none }, none)
gesture disabled items d (drag_over i) = elim d.dragging [
  | none ↦ (d, none)
  | some f ↦ (record d { over = some i }, none)
]
gesture disabled items d (drop_on i) = elim d.dragging [
  | none ↦ (record { dragging = none; over = none }, none)
  | some f ↦ (record { dragging = none; over = none }, move f (pos i) items)
]
gesture disabled items d (key i name) =
    if disabled
    then (d, none)
    else if str_eq name "ArrowUp"
    then (d, move i (before i) items)
    else if str_eq name "ArrowDown"
    then (d, move i (pos (i + 1)) items)
    else (d, none)
gesture disabled items d (move_up i) =
    if disabled || i == 0 then (d, none) else (d, move i (before i) items)
gesture disabled items d (move_down i) =
    if disabled || i + 1 == length items then (d, none) else (d, move i (pos (i + 1)) items)

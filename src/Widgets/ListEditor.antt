-- ===== src/Widgets/ListEditor.antt =====
-- web/src/components/ui/list-editor.tsx, and the two list answers of
-- web/src/components/phase1/puzzle-card.tsx, `SequenceInput` and `ListInput`.
use codolympics.Prelude.{
  ℕ, zero, suc, ◌+◌, Bool, true, not, ◌&&◌, String, List, [], ◌∷◌, ◌++◌, Option, none, some,
  if◌then◌else◌, ltb, leb, ◌==◌, length, get_elem?, set, str_eq, includes, any,
}
use codolympics.Widgets.Reorder.{remove_at}

-- `[n[i], n[j]] = [n[j], n[i]]`, for two positions inside the list.
unfoldable pub swap : {T : Type 0} → ℕ → ℕ → List T → List T
swap i j items = elim (get_elem? items i) [
  | none ↦ items
  | some a ↦ elim (get_elem? items j) [ none ↦ items | some b ↦ set (set items i b) j a ]
]

pub data Direction : Type 0 where
  up down : Direction

-- `i + d`, `none` below 0.
unfoldable neighbour : ℕ → Direction → Option ℕ
neighbour zero up = none
neighbour (suc i) up = some i
neighbour i down = some (i + 1)

-- `move(i, d)`; `none` where it returns early.
unfoldable shift : {T : Type 0} → ℕ → Direction → List T → Option (List T)
unfolding swap neighbour
shift i d items = elim (neighbour i d) [
  | none ↦ none
  | some j ↦ if leb (length items) j then none else some (swap i j items)
]

-- Enter on the last line, and the "Add" button: a new line while there is room.
unfoldable enter : ℕ → ℕ → List String → Option (List String)
enter max i items =
    if i + 1 == length items && ltb (length items) max then some (items ++ "" ∷ []) else none

unfoldable add_line : ℕ → List String → Option (List String)
add_line max items = if ltb (length items) max then some (items ++ "" ∷ []) else none

-- `items.map((x, j) => (j === i ? v : x))` is `set items i v`; `items.filter((_, j) => j !== i)`:
unfoldable remove_line : {T : Type 0} → ℕ → List T → List T
unfolding remove_at
remove_line i items = remove_at i items

-- `new Set(value).size === value.length`.
unfoldable pub is_distinct : List ℕ → Bool
is_distinct [] = true
is_distinct (x ∷ xs) = not (any (λ y. y == x) xs) && is_distinct xs

-- `items.map((_, i) => i)`.
unfoldable pub identity_from : ℕ → ℕ → List ℕ
identity_from start zero = []
identity_from start (suc n) = start ∷ identity_from (start + 1) n

-- `SequenceInput`: the order that is shown for `n` items.
unfoldable pub shown_order : ℕ → List ℕ → List ℕ
unfolding is_distinct identity_from
shown_order n value = if length value == n && is_distinct value then value else identity_from 0 n

-- What an arrow reports.
unfoldable move_item : ℕ → List ℕ → ℕ → Direction → Option (List ℕ)
unfolding shown_order shift
move_item n value from d = shift from d (shown_order n value)

-- `ListInput`'s "Add", for a draft already trimmed.
pub data Added : Type 0 where
  ignored : Added
  wrong_format already_added too_many : Added
  accepted : List String → Added

unfoldable pub add_entry : ℕ → (check : String → Bool) → List String → String → Added
add_entry max check value s =
    if str_eq s ""
    then ignored
    else if not (check s)
    then wrong_format
    else if includes value s
    then already_added
    else if leb max (length value)
    then too_many
    else accepted (value ++ s ∷ [])

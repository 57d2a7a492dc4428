-- ===== src/Sections/Lists.antt =====
-- web/src/components/admin/phase1-lists.tsx: `PuzzleList` and `HackList`, what they list, count and offer.
-- `has` is `a.toLowerCase().includes(b.toLowerCase())` and `includes` is `a.includes(b)`.
use codolympics.Prelude.{
  ℕ, ◌+◌, Bool, true, false, not, ◌||◌, String, List, [], ◌∷◌, ◌++◌, if◌then◌else◌, length, keep,
  str_eq,
}
use codolympics.Authoring.Puzzle.{Puzzle, QuestionState, draft, ready, live, void}
use codolympics.Sections.Confirming.{Deed, publish, unpublish, remove}

-- `Hack`, less the texts, which the list does not read.
pub record Hack : Type 0 where
  pub id : ℕ
  pub title : String
  pub problem_id : String
  pub languages : List String
  pub hack_points : ℕ
  pub fail_penalty : ℕ
  pub order_index : ℕ
  pub published : Bool
  pub voided : Bool
  pub ready : Bool

-- `stateOf`.
unfoldable pub hack_state : Hack → QuestionState
hack_state q =
    if q.voided then void else if q.published then live else if q.ready then ready else draft

-- The chips of the state: all, or one state.
pub data Chip : Type 0 where
  all : Chip
  only : QuestionState → Chip

unfoldable pub same_state : QuestionState → QuestionState → Bool
same_state draft draft = true
same_state ready ready = true
same_state live live = true
same_state void void = true
same_state _ _ = false

unfoldable pub passes : Chip → QuestionState → Bool
unfolding same_state
passes all s = true
passes (only t) s = same_state s t

module _ {Q : Type 0} (state : Q → QuestionState) where
  -- The number on a chip.
  unfoldable pub count : Chip → List Q → ℕ
  unfolding passes
  count c rows = length (keep (λ (q : Q). passes c (state q)) rows)

  -- `shown`: the chip, then the text of the filter.
  unfoldable pub shown : (found : String → Q → Bool) → Chip → (filter : String) → List Q → List Q
  unfolding passes
  shown found c filter rows =
      keep (λ (q : Q). str_eq filter "" || found filter q)
        (keep (λ (q : Q). passes c (state q)) rows)

  unfoldable pub sum_live : (Q → ℕ) → List Q → ℕ
  unfolding same_state
  sum_live points [] = 0
  sum_live points (q ∷ rest) =
      (if same_state (state q) live then points q else 0) + sum_live points rest

module _ (has : String → String → Bool) where
  unfoldable puzzle_found : {F : Type 0} → String → Puzzle F → Bool
  puzzle_found filter q = has q.title filter

  unfoldable hack_found : (includes : String → String → Bool) → String → Hack → Bool
  hack_found includes filter q = has q.title filter || includes q.problem_id filter

-- `new Set(l)`, in its order.
unfoldable pub distinct : List String → List String
distinct [] = []
distinct (x ∷ xs) = let rest = distinct xs in x ∷ keep (λ (y : String). not (str_eq y x)) rest

unfoldable all_languages : List Hack → List String
all_languages [] = []
all_languages (q ∷ rest) = q.languages ++ all_languages rest

unfoldable language_count : List Hack → ℕ
unfolding distinct all_languages
language_count rows = length (distinct (all_languages rows))

pub data Item : Type 0 where
  edit export separator blocked_publish : Item
  ask : Deed → Item

abbrev item_if : Bool → Item → List Item
item_if b i = if b then i ∷ [] else []

-- The menu of a puzzle's row, and that of a hacking question's.
unfoldable pub puzzle_menu : (s : QuestionState) → (voided published : Bool) → List Item
unfolding same_state
puzzle_menu s voided published =
    (edit ∷ export ∷ separator ∷ [])
    ++ (item_if (same_state s live) (ask unpublish)
        ++ (item_if (same_state s ready) (ask publish)
            ++ (item_if (same_state s draft) blocked_publish
                ++ (item_if (not voided) (ask Deed.void) ++ item_if (not published) (ask remove)))))

unfoldable pub hack_menu : (s : QuestionState) → (voided : Bool) → List Item
unfolding same_state
hack_menu s voided =
    (edit ∷ export ∷ separator ∷ [])
    ++ (item_if (same_state s live) (ask unpublish)
        ++ (item_if (same_state s ready) (ask publish)
            ++ (item_if (same_state s draft) blocked_publish
                ++ item_if (not voided) (ask Deed.void))))

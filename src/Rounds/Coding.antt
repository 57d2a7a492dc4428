-- ===== src/Rounds/Coding.antt =====
-- web/src/components/contest/coding-round.tsx: `CodingRound`, the questions that a competitor owns,
-- ordered by what is left to do. `String.prototype.localeCompare` is a parameter: `title_le a b` is
-- whether it puts `a` at or before `b`.
use codolympics.Prelude.{
  ℕ, ◌+◌, Bool, not, ◌&&◌, ◌||◌, String, List, [], ◌∷◌, Option, none, some, if◌then◌else◌, ltb,
  ◌==◌, str_eq, keep, find, length, sort_by,
}

pub record Owned : Type 0 where
  pub id : ℕ
  pub title : String
  pub progress : String
  pub score : ℕ

-- `PROGRESS[p]?.rank ?? 0`.
unfoldable pub rank : String → ℕ
rank p =
    if str_eq p "attempted"
    then 1
    else if str_eq p "judging"
    then 2
    else if str_eq p "solved"
    then 3
    else 0

-- The comparison of the sort is at most zero.
unfoldable pub at_or_before : (String → String → Bool) → Owned → Owned → Bool
unfolding rank
at_or_before title_le a b =
    ltb (rank a.progress) (rank b.progress)
    || (rank a.progress == rank b.progress && title_le a.title b.title)

unfoldable pub mine : (String → String → Bool) → List Owned → List Owned
unfolding at_or_before
mine title_le l = sort_by (at_or_before title_le) l

unfoldable pub is_solved : Owned → Bool
is_solved q = str_eq q.progress "solved"

-- `mine.find((q) => q.progress !== "solved")`.
unfoldable pub next : (String → String → Bool) → List Owned → Option Owned
unfolding mine is_solved
next title_le l = find (λ q. not (is_solved q)) (mine title_le l)

unfoldable pub points : List Owned → ℕ
points [] = 0
points (q ∷ rest) = q.score + points rest

-- The figures of the first row: how many are solved of how many, and with how many points of how many.
pub record Figures : Type 0 where
  pub solved : ℕ
  pub owned : ℕ
  pub earned : ℕ
  pub possible : ℕ
  pub is_complete : Bool

unfoldable pub figures : (String → String → Bool) → List Owned → Figures
unfolding mine is_solved points
figures title_le l =
    let sorted = mine title_le l in
    let done = keep is_solved sorted in
    record {
      solved = length done;
      owned = length sorted;
      earned = points done;
      possible = points sorted;
      is_complete = length done == length sorted && ltb 0 (length sorted);
    }

pub data Headline : Type 0 where
  solve : Owned → Headline
  all_solved owns_nothing : Headline

-- The heading, and with `solve` the link to the question.
unfoldable headline : (String → String → Bool) → List Owned → Headline
unfolding next mine
headline title_le l = elim (next title_le l) [
  | some q ↦ solve q
  | none ↦ elim (mine title_le l) [ [] ↦ owns_nothing | q ∷ rest ↦ all_solved ]
]

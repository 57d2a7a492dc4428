-- ===== src/Rounds/Tests.antt =====
-- The rounds' pages on concrete data.
use codolympics.Prelude.{
  ◌≡◌, refl, Bool, true, false, not, String, List, [], ◌∷◌, none, some, pos, arith, str_eq, In,
}
use codolympics.Prelude.Lists.{here, there}
use codolympics.Rounds.Puzzles.{Data as Puzzles, Page as PuzzlePage}
use codolympics.Rounds.Hacks.{
  Solution, Question, Data, Page, question, solution, submit, can_submit, clicked, in_flight,
}
use codolympics.Rounds.Targets.{IsFor, clicked_lem}
use codolympics.Rounds.Coding.{Owned}

abbrev three_puzzles : Puzzles
three_puzzles = record { is_open = true; questions = 11 ∷ 12 ∷ 13 ∷ []; answers = 11 ∷ [] }

abbrev reading : PuzzlePage
reading = record {
  data_read = some three_puzzles;
  error = none;
  finish_open = false;
  current = pos 2;
}

abbrev in_python : Solution
in_python = record { id = 70; language = "python" }

abbrev in_cpp : Solution
in_cpp = record { id = 71; language = "cpp" }

abbrev sums : Question
sums = record { id = 1; solutions = in_python ∷ in_cpp ∷ [] }

abbrev paths : Question
paths = record { id = 2; solutions = in_cpp ∷ [] }

abbrev section : Data
section = record { is_open = true; questions = sums ∷ paths ∷ []; attempts = [] }

abbrev reordered : Data
reordered = record { is_open = true; questions = paths ∷ sums ∷ []; attempts = [] }

abbrev typing : Page
typing = record { current_id = none; input = "2 3"; busy = false; finish_open = false }

paths_once : (r : Question) → In r (sums ∷ paths ∷ []) → r.id ≡ 2 → r ≡ paths
paths_once r (here e) q = let f = ap_id sums r e in absurd (omega arith)
  where
    ap_id : (x y : Question) → x ≡ y → x.id ≡ y.id
    ap_id x y e = cc
paths_once r (there (here e)) q = cc
paths_once r (there (there m)) q = elim m [ ]

abbrev is_not_empty : String → Bool
is_not_empty s = not (str_eq s "")

clicked_lem_example :
    IsFor (some "cpp") section typing (record { question_id = 1; solution_id = 71; input = "2 3" })
    × (true ≡ true)
    × (false ≡ false)
    × (false ≡ false)
    × (in_flight [] ≡ false)
    × (is_not_empty "2 3" ≡ true)
unfolding clicked submit can_submit question solution
clicked_lem_example =
    clicked_lem is_not_empty false (some "cpp") section typing
      (record { question_id = 1; solution_id = 71; input = "2 3" }) refl

abbrev always : String → String → Bool
always a b = true

abbrev owned : List Owned
owned =
    record { id = 5; title = "Trees"; progress = "solved"; score = 300 }
    ∷ record { id = 6; title = "Graphs"; progress = "attempted"; score = 200 }
    ∷ []

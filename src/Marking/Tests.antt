-- ===== src/Marking/Tests.antt =====
-- The evaluators' page on concrete data: a participant's number stands for the order of names.
use codolympics.Prelude.{
  ℕ, ◌+◌, ◌≡◌, Bool, true, false, not, String, [], ◌∷◌, ◌++◌, Option, none, some, str_eq, length,
  ◌||◌,
}
use codolympics.Marking.Queue.{Item, Question, Group, rows_of, listed, to_grade, text}
use codolympics.Marking.Seats.{walk, walk_all}
use codolympics.Marking.Card.{Card, wrote_manual, flag, elapsed, steps}
use codolympics.Marking.Flags.{flag_undone}

abbrev as_is : String → String
as_is s = s

abbrev no_later : String → String → Bool
no_later a b = str_eq a "p1" || str_eq b "p2"

abbrev essay : Question
essay = record { id = 3; title = "Explain"; grading = "manual"; points = 20; explain_points = 5 }

abbrev from : String → Option ℕ → Bool → Item ℕ
from who mark pressed = record {
  participant_id = who;
  name = who;
  answer = text "13";
  explanation = none;
  manual_score = mark;
  explain_score = none;
  comment = none;
  flagged = pressed;
}

abbrev answers : Group ℕ
answers = record { question = essay; items = from "p2" none false ∷ from "p1" (some 12) false ∷ [] }

walk_all_example :
    let l = listed to_grade (rows_of as_is no_later answers) in
    (walk (length l) 0 l ≡ l) × (walk (length l + 1) 0 l ≡ l)
walk_all_example = walk_all as_is no_later answers to_grade

abbrev flagged_answers : Group ℕ
flagged_answers = record {
  question = essay;
  items = from "p2" none true ∷ from "p1" (some 12) true ∷ [];
}

abbrev card : Card
card = record {
  shown = record { manual = ""; explain = "4"; comment = ""; flagged = false };
  timer = none;
  sent = [];
}

flag_undone_example :
    let d = steps card (wrote_manual "12" ∷ flag ∷ elapsed ∷ []) in
    (d.shown.flagged ≡ not card.shown.flagged)
    × (d.sent
        ≡ (card.sent
            ++ record (card.shown) { manual = "12"; flagged = not card.shown.flagged } ∷ [])
          ++ record (card.shown) { manual = "12" } ∷ [])
flag_undone_example = flag_undone card "12"

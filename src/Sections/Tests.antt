-- ===== src/Sections/Tests.antt =====
-- The lists of Phase 1 and the selection on concrete data.
use mathlib.Core.List.{Perm}
use mathlib.Core.List.Perm
use codolympics.Prelude.{
  ℕ, ◌≡◌, refl, ◌↔◌, true, false, not, ◌&&◌, String, List, [], ◌∷◌, none, some, All, In, map, arith,
}
use codolympics.Prelude.Lists.{here}
use codolympics.Sections.Confirming.{
  Pending, publish, void, puzzles, written, act, Dialog, asked, closed, typed, confirmed, done,
  refused, step, steps, can_confirm,
}
use codolympics.Sections.Filed.{IsFiled, steps-IsFiled, other_dialog_answered}
use codolympics.Sections.Review.{
  Standing, Page, picked, loaded, clicked, confirmed as sent_off, step as take, steps as takes,
}
use codolympics.Sections.Selected.{IsAmong, picked_iff, disqualified_stays}
use codolympics.Sections.Ordering.{
  Row, row_id, Page as Panel, gestured, pressed_save, is_dirty, step as turn, steps as turns,
}
use codolympics.Sections.Ordered.{saved_order}
use codolympics.Widgets.Reorder.{move_down}

abbrev as_it_is : String → String
as_it_is s = s

abbrev maze : Pending
maze = record { kind = void; id = 7; title = "Maze" }

abbrev sums : Pending
sums = record { kind = publish; id = 8; title = "Sums" }

abbrev quiet : Dialog
quiet = record { pending = none; reason = ""; busy = false; error = none; sent = [] }

steps-IsFiled_example :
    All
      (IsFiled as_it_is puzzles)
      (steps as_it_is puzzles quiet (asked maze ∷ typed "wrong key" ∷ confirmed ∷ done ∷ [])).sent
steps-IsFiled_example =
    steps-IsFiled as_it_is puzzles quiet (asked maze ∷ typed "wrong key" ∷ confirmed ∷ done ∷ []) tt

abbrev asking : Dialog
asking = record { pending = some maze; reason = "wrong key"; busy = false; error = none; sent = [] }

asking-can_confirm : can_confirm as_it_is puzzles asking maze ≡ true
unfolding can_confirm
asking-can_confirm = refl

other_dialog_answered_example :
    let f = steps as_it_is puzzles asking (confirmed ∷ closed ∷ asked sums ∷ confirmed ∷ []) in
    (f.pending ≡ some sums)
    × (f.sent ≡ act puzzles void 7 "wrong key" ∷ [])
    × ((step as_it_is puzzles f done).pending ≡ none)
    × ((step as_it_is puzzles f (refused "No.")).pending ≡ some sums)
    × ((step as_it_is puzzles f (refused "No.")).error ≡ some "No.")
unfolding written
other_dialog_answered_example =
    other_dialog_answered as_it_is puzzles asking maze sums "No." refl asking-can_confirm

abbrev ada : Standing
ada = record {
  participant_id = "ada";
  name = "Ada";
  points = 30;
  provisional = false;
  submitted_at = none;
  disqualified = true;
  advanced = some true;
  rank = 0;
}

abbrev bob : Standing
bob = record {
  participant_id = "bob";
  name = "Bob";
  points = 20;
  provisional = false;
  submitted_at = none;
  disqualified = false;
  advanced = none;
  rank = 1;
}

abbrev review : Page
review = record { rows = some (ada ∷ bob ∷ []); chosen = "ada" ∷ []; sent = [] }

picked_iff_example : In "bob" (take review (picked 1)).chosen ↔ IsAmong 1 (ada ∷ bob ∷ []) "bob"
picked_iff_example = picked_iff review (ada ∷ bob ∷ []) 1 "bob" refl (omega arith)

disqualified_stays_example :
    let q = takes (take review (loaded (ada ∷ bob ∷ []))) (map clicked (ada ∷ bob ∷ [])) in
    ((take q (sent_off "Finalists")).sent
      ≡ record { participant_ids = q.chosen; reason = "Finalists" } ∷ q.sent)
    × In "ada" q.chosen
disqualified_stays_example =
    disqualified_stays review (ada ∷ bob ∷ []) (ada ∷ bob ∷ []) ada "Finalists" (here refl) refl
      refl (ground arith)

abbrev row : ℕ → Row
row n = record { id = n; title = "Q"; published = true; voided = false; points = 5; kind = none }

abbrev three : List Row
three = row 1 ∷ row 2 ∷ row 3 ∷ []

abbrev panel : Panel
panel = record {
  rows = some three;
  order = three;
  busy = false;
  drag = record { dragging = none; over = none };
  sent = [];
}

panel-can_save :
    (is_dirty (turns panel (gestured (move_down 0) ∷ []))
      && not (turns panel (gestured (move_down 0) ∷ [])).busy)
    ≡ true
unfolding turns
panel-can_save = refl

panel-rows : (turns panel (gestured (move_down 0) ∷ [])).rows ≡ some three
unfolding turns
panel-rows = refl

saved_order_example :
    let q = turns panel (gestured (move_down 0) ∷ []) in
    ((turn q pressed_save).sent ≡ map row_id q.order ∷ q.sent)
    × Perm (map row_id q.order) (map row_id three)
saved_order_example =
    saved_order panel (gestured (move_down 0) ∷ []) three (Perm.refl three) panel-rows
      panel-can_save

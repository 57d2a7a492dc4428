-- ===== src/Admin/Tests.antt =====
-- The settings of the contest on concrete data.
use codolympics.Prelude.{◌≡◌, refl, ℕ, true, false, String, [], ◌∷◌, Option, none, some}
use codolympics.Admin.Settings.{
  Settings, Texts, Page, final, edited, pressed_save, answered, can_save, is_dirty, patch, steps,
}
use codolympics.Admin.Edits.{edit_during_save}

abbrev shown_mode : Option (Settings ℕ) → String
shown_mode none = "null"
shown_mode (some c) = c.leaderboard_mode

abbrev texts : Texts ℕ
texts = record { number = λ s. 90; stringify = shown_mode; trim = λ s. s; size = λ s. 9 }

abbrev with_standings : String → Settings ℕ
with_standings mode = record {
  auction_mode = "online";
  marketplace_open = false;
  starting_balance = 1000;
  bid_increment = 10;
  countdown_seconds = 15;
  opening_window_seconds = 30;
  ownership_cap = none;
  coding1_minutes = 60;
  final_minutes = 45;
  p1_puzzles_minutes = 30;
  p1_hacking_minutes = 30;
  p1_selection_basis = "The top half.";
  p1_leaderboard_mode = "hidden";
  leaderboard_mode = mode;
  proctoring = true;
  proctor_warnings = 2;
}

abbrev changed : Page ℕ
changed = record {
  c = some (with_standings "frozen");
  orig = some (with_standings "live");
  reason = "Final hour";
  busy = false;
  sent = [];
}

changed-can_save : can_save texts changed ≡ true
unfolding can_save is_dirty
changed-can_save = refl

edit_during_save_example :
    let q =
      steps texts changed
        (pressed_save ∷ edited (final "90") ∷ answered (some (with_standings "frozen")) ∷ []) in
    (q.c ≡ some (with_standings "frozen"))
    × (is_dirty texts q ≡ false)
    × (q.sent ≡ patch texts "Final hour" (with_standings "frozen") ∷ [])
edit_during_save_example =
    edit_during_save texts changed (with_standings "frozen") (with_standings "frozen") (final "90")
      refl changed-can_save

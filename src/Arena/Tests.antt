-- ===== src/Arena/Tests.antt =====
-- What holds or covers a competitor's page, the autosave and the auction floor, on concrete data.
use codolympics.Prelude.{
  ℕ, ◌≡◌, refl, true, false, [], ◌∷◌, ◌++◌, none, some, ◌⊎◌, inl, inr, ◌↔◌, pos,
}
use codolympics.Arena.Proctor.{
  Standing, blur, gate, ok, alert, locked, Proctor, phase_changed, resumed, is_locked, enforced,
  standing, shown_screen, has_button, step as proctor_step, steps as proctor_steps,
}
use codolympics.Arena.Held.{released_by_resume, lock_lost_between_rounds}
use codolympics.Arena.Announcements.{Announcement, Overlay as Announcements, effect}
use codolympics.Arena.Announced.{Takes, take_new_lem}
use codolympics.Arena.Blackout.{
  State, Overlay, powerup, failed, answered, page_read, current, shown, check, redraw, left_ms,
  step as blackout_step, steps as blackout_steps,
}
use codolympics.Arena.Lifted.{stays_up}
use codolympics.Arena.Autosave.{Editor, on_answer, idle, fire, steps}
use codolympics.Arena.Saved.{as_list, last_save, steps-sent}
use codolympics.Arena.Auction.{Lot, Snapshot, Watcher, Bid, clicked}
use codolympics.Arena.Bids.{MayBid, clicked_iff}

abbrev in_good_standing : Standing
in_good_standing = record { enabled = true; alerts = 1; warnings = 3; locked = false }

abbrev locked_out : Standing
locked_out = record { enabled = true; alerts = 4; warnings = 3; locked = true }

abbrev working : Proctor
working = record {
  screen = ok;
  last = none;
  reported = none;
  server = some in_good_standing;
  phase = "p1_puzzles";
  disqualified = false;
  was_locked = false;
  was_enforced = true;
  posts = 0;
}

abbrev stopped : Proctor
stopped = record working { screen = locked; server = some locked_out; was_locked = true }

abbrev alerted : Proctor
alerted = record working { screen = alert; last = some blur; posts = 1 }

released_by_resume_example :
    (alert ≡ ok) ⊎ ((resumed true ≡ resumed true) × (has_button (shown_screen alerted) ≡ true))
unfolding proctor_step shown_screen enforced standing
released_by_resume_example = released_by_resume alerted (resumed true) refl

lock_lost_between_rounds_example :
    let p = proctor_steps stopped (phase_changed "review" ∷ phase_changed "auction1" ∷ []) in
    (is_locked p ≡ true)
    × (shown_screen p ≡ some gate)
    × ((proctor_step p (resumed true)).screen ≡ ok)
    × (shown_screen (proctor_step p (resumed true)) ≡ none)
unfolding is_locked standing
lock_lost_between_rounds_example =
    lock_lost_between_rounds stopped "review" "auction1" refl refl refl refl refl refl refl

abbrev note : ℕ → Announcement
note n = record { id = n; body_md = "Lunch is at one."; created_at = "2025-01-01T10:00:00Z" }

abbrev caught_up : Announcements
caught_up = record { queue = []; seen = some 4; stored = some 4 }

take_new_lem_example :
    Takes 4
      (note 6 ∷ note 5 ∷ note 4 ∷ [])
      caught_up
      (effect caught_up (note 6 ∷ note 5 ∷ note 4 ∷ []))
take_new_lem_example = take_new_lem 4 (note 6 ∷ note 5 ∷ note 4 ∷ []) caught_up refl

abbrev active_blackout : State
active_blackout = record { active = true; ends_at = some 60000; count = 1; by = "ada" ∷ [] }

abbrev covered : Overlay
covered = record {
  initial = some active_blackout;
  live = none;
  checking = false;
  at_zero = false;
  sent = 0;
}

stays_up_example :
    shown (
      blackout_steps covered (
        powerup
        ∷ failed
        ∷ powerup
        ∷ answered (pos 91000) active_blackout
        ∷ page_read (pos 92000) none
        ∷ []))
    ≡ true
unfolding shown current blackout_step check redraw left_ms
stays_up_example =
    stays_up covered
      (powerup
        ∷ failed
        ∷ powerup
        ∷ answered (pos 91000) active_blackout
        ∷ page_read (pos 92000) none
        ∷ [])
      refl (tt, (tt, (tt, (inr refl, (inl (active_blackout, refl), tt)))))

abbrev editor : Editor ℕ
editor = record {
  answer = 0;
  explanation = "";
  status = idle;
  format_error = none;
  timer = none;
  sent = [];
}

steps-sent_example :
    (fire (steps false "a number" editor (on_answer 1 true ∷ on_answer 12 true ∷ []))).sent
    ≡ [] ++ as_list (last_save none (on_answer 1 true ∷ on_answer 12 true ∷ []))
steps-sent_example =
    steps-sent "a number" editor (on_answer 1 true ∷ on_answer 12 true ∷ []) (refl, (refl, tt))

abbrev lot : Lot
lot = record {
  id = 3;
  current_bid = some 100;
  current_bidder_id = some "bob";
  next_bid = 110;
  bidding_ends_at = some 5000;
  no_bid_deadline = none;
}

abbrev auction : Snapshot
auction = record {
  lot = some lot;
  order = [];
  increment = 10;
  paused = false;
  mode = "online";
  countdown_seconds = 10;
  opening_window_seconds = 30;
}

abbrev ada : Watcher
ada = record {
  id = "ada";
  role = "participant";
  me = some (record { balance = 145; advanced = true; disqualified = false });
}

abbrev next_bid : Bid
next_bid = record { lot_id = 3; amount = 110 }

clicked_iff_example : (clicked auction ada false ≡ some next_bid) ↔ (
    (l : Lot) × (some lot ≡ some l)
    × MayBid auction ada false l
    × (next_bid ≡ record { lot_id = l.id; amount = l.next_bid }))
clicked_iff_example = clicked_iff auction ada false next_bid

-- The click is made: the right side's conditions all hold.
clicked_run : clicked auction ada false ≡ some (record { lot_id = 3; amount = 110 })
unfolding clicked
clicked_run = refl

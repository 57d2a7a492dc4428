-- ===== src/Admin/Settings.antt =====
-- web/src/app/(app)/admin/contest/page.tsx: `SettingsPage`, its fields, its save and what reloads it. A
-- number is of any type; `Number(s)`, `JSON.stringify`, `trim` and the length of a text are arguments.
use codolympics.Prelude.{
  ℕ, Bool, true, false, not, ◌&&◌, String, List, [], ◌∷◌, Option, none, some, if◌then◌else◌, leb,
  str_eq,
}

-- `C`.
pub record Settings (N : Type 0) : Type 0 where
  pub auction_mode : String
  pub marketplace_open : Bool
  pub starting_balance : N
  pub bid_increment : N
  pub countdown_seconds : N
  pub opening_window_seconds : N
  pub ownership_cap : Option N
  pub coding1_minutes : N
  pub final_minutes : N
  pub p1_puzzles_minutes : N
  pub p1_hacking_minutes : N
  pub p1_selection_basis : String
  pub p1_leaderboard_mode : String
  pub leaderboard_mode : String
  pub proctoring : Bool
  pub proctor_warnings : N

-- The body of the PATCH.
pub record Patch (N : Type 0) : Type 0 where
  pub reason : String
  pub auction_mode : String
  pub marketplace_open : Bool
  pub starting_balance : N
  pub bid_increment : N
  pub countdown_seconds : N
  pub opening_window_seconds : N
  pub ownership_cap : Option N
  pub coding1_minutes : N
  pub final_minutes : N
  pub p1_puzzles_minutes : N
  pub p1_hacking_minutes : N
  pub p1_selection_basis : String
  pub p1_leaderboard_mode : String
  pub leaderboard_mode : String
  pub proctoring : Bool
  pub proctor_warnings : N

-- The fields of the page, each with what was typed or chosen.
pub data Edit : Type 0 where
  p1_puzzles p1_hacking p1_basis p1_standings balance increment cap marketplace : String → Edit
  standings auction opening countdown coding1 final supervision warnings : String → Edit

-- What the page uses of JavaScript.
pub record Texts (N : Type 0) : Type 0 where
  pub number : String → N
  pub stringify : Option (Settings N) → String
  pub trim : String → String
  pub size : String → ℕ

-- `busy` is whether a save is out; `sent` is what was sent, the latest first.
pub record Page (N : Type 0) : Type 0 where
  pub c : Option (Settings N)
  pub orig : Option (Settings N)
  pub reason : String
  pub busy : Bool
  pub sent : List (Patch N)

-- A load or a reset's reload has answered; a field or the reason was edited; the buttons of the bar were
-- pressed; the save has answered, `none` for an error.
pub data Event (N : Type 0) : Type 0 where
  loaded reloaded : Settings N → Event N
  edited : Edit → Event N
  reasoned : String → Event N
  discarded pressed_save : Event N
  answered : Option (Settings N) → Event N

module _ {N : Type 0} (js : Texts N) where
  abbrev cap_of : String → Option N
  cap_of v = if str_eq v "" then none else some (js.number v)

  -- `set(k, v)` of each field.
  unfoldable pub set : Edit → Settings N → Settings N
  set (p1_puzzles v) c = record c { p1_puzzles_minutes = js.number v }
  set (p1_hacking v) c = record c { p1_hacking_minutes = js.number v }
  set (p1_basis v) c = record c { p1_selection_basis = v }
  set (p1_standings v) c = record c { p1_leaderboard_mode = v }
  set (balance v) c = record c { starting_balance = js.number v }
  set (increment v) c = record c { bid_increment = js.number v }
  set (cap v) c = record c { ownership_cap = cap_of v }
  set (marketplace v) c = record c { marketplace_open = str_eq v "open" }
  set (standings v) c = record c { leaderboard_mode = v }
  set (auction v) c = record c { auction_mode = v }
  set (opening v) c = record c { opening_window_seconds = js.number v }
  set (countdown v) c = record c { countdown_seconds = js.number v }
  set (coding1 v) c = record c { coding1_minutes = js.number v }
  set (final v) c = record c { final_minutes = js.number v }
  set (supervision v) c = record c { proctoring = str_eq v "on" }
  set (warnings v) c = record c { proctor_warnings = js.number v }

  -- The fields that the page shows only under a setting.
  unfoldable pub is_shown : Edit → Settings N → Bool
  is_shown (opening v) c = str_eq c.auction_mode "online"
  is_shown (countdown v) c = str_eq c.auction_mode "online"
  is_shown (warnings v) c = c.proctoring
  is_shown _ c = true

  unfoldable pub is_dirty : Page N → Bool
  is_dirty p = not (str_eq (js.stringify p.c) (js.stringify p.orig))

  unfoldable pub can_save : Page N → Bool
  unfolding is_dirty
  can_save p = is_dirty p && not p.busy && leb 3 (js.size (js.trim p.reason))

  unfoldable pub patch : String → Settings N → Patch N
  patch reason c = record {
    reason = reason;
    auction_mode = c.auction_mode;
    marketplace_open = c.marketplace_open;
    starting_balance = c.starting_balance;
    bid_increment = c.bid_increment;
    countdown_seconds = c.countdown_seconds;
    opening_window_seconds = c.opening_window_seconds;
    ownership_cap = c.ownership_cap;
    coding1_minutes = c.coding1_minutes;
    final_minutes = c.final_minutes;
    p1_puzzles_minutes = c.p1_puzzles_minutes;
    p1_hacking_minutes = c.p1_hacking_minutes;
    p1_selection_basis = c.p1_selection_basis;
    p1_leaderboard_mode = c.p1_leaderboard_mode;
    leaderboard_mode = c.leaderboard_mode;
    proctoring = c.proctoring;
    proctor_warnings = c.proctor_warnings;
  }

  -- `setC` and `setOrig` with what the server answered.
  unfoldable pub took : Settings N → Page N → Page N
  took x p = record p { c = some x; orig = some x }

  -- `save`, up to its request.
  unfoldable pub save : Page N → Page N
  unfolding patch
  save p = elim p.c [
    | none ↦ p
    | some c ↦ record p { busy = true; sent = patch p.reason c ∷ p.sent }
  ]

  unfoldable pub edit : Edit → Page N → Page N
  unfolding set is_shown
  edit e p = elim p.c [
    | none ↦ p
    | some c ↦ if is_shown e c then record p { c = some (set e c) } else p
  ]

  unfoldable pub step : Page N → Event N → Page N
  unfolding is_dirty can_save took save edit
  step p (loaded x) = took x p
  step p (reloaded x) = took x p
  step p (edited e) = edit e p
  step p (reasoned s) = if is_dirty p then record p { reason = s } else p
  step p discarded = if is_dirty p then record p { c = p.orig; reason = "" } else p
  step p pressed_save = if can_save p then save p else p
  step p (answered none) = record p { busy = false }
  step p (answered (some x)) = record (took x p) { reason = ""; busy = false }

  unfoldable pub steps : Page N → List (Event N) → Page N
  unfolding step
  steps p [] = p
  steps p (e ∷ es) = steps (step p e) es

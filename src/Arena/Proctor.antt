-- ===== src/Arena/Proctor.antt =====
-- web/src/components/contest/proctor.tsx, `useHeldOnPage`: the screen that holds a competitor on the
-- page. `was_locked` and `was_enforced` are the values for which the effects on `locked` and on
-- `enforced` last ran; `posts` counts the alerts sent. What the browser answers (whether the page is
-- held after full screen was asked for) and what the server answers come with the events.
use codolympics.Prelude.{
  ℕ, ◌+◌, ◌-◌, min, Bool, true, false, not, ◌&&◌, String, List, [], ◌∷◌, Option, none, some,
  if◌then◌else◌, includes,
}

pub record Standing : Type 0 where
  pub enabled : Bool
  pub alerts : ℕ
  pub warnings : ℕ
  pub locked : Bool

pub data Kind : Type 0 where
  fullscreen blur hidden : Kind

pub data Screen : Type 0 where
  gate ok alert locked : Screen

abbrev pub held_phases : List String
held_phases = "p1_puzzles" ∷ "p1_hacking" ∷ "auction1" ∷ "coding1" ∷ "auction2" ∷ "final" ∷ []

-- `server` is `me?.proctor`, and `disqualified` is `me?.disqualified`.
pub record Proctor : Type 0 where
  pub screen : Screen
  pub last : Option Kind
  pub reported : Option Standing
  pub server : Option Standing
  pub phase : String
  pub disqualified : Bool
  pub was_locked : Bool
  pub was_enforced : Bool
  pub posts : ℕ

abbrev pub is_enabled : Option Standing → Bool
is_enabled none = false
is_enabled (some s) = s.enabled

unfoldable pub enforced : Proctor → Bool
enforced p = is_enabled p.server && includes held_phases p.phase && not p.disqualified

-- `reported ?? fromServer`.
abbrev first_of_two : Option Standing → Option Standing → Option Standing
first_of_two none b = b
first_of_two (some a) b = some a

unfoldable pub standing : Proctor → Option Standing
standing p = first_of_two p.reported p.server

abbrev has_lock : Option Standing → Bool
has_lock none = false
has_lock (some s) = s.locked

unfoldable pub is_locked : Proctor → Bool
unfolding standing
is_locked p = has_lock (standing p)

abbrev pub same : Bool → Bool → Bool
same true b = b
same false b = not b

abbrev unlocked_screen : Screen → Screen
unlocked_screen locked = gate
unlocked_screen s = s

-- The effect on `[locked]`.
unfoldable pub lock_effect : Proctor → Proctor
lock_effect p =
    let l = is_locked p in
    if same l p.was_locked
    then p
    else record p { screen = if l then locked else unlocked_screen p.screen; was_locked = l }

-- The effect on `[enforced]`: watching the ways out is `was_enforced` itself.
unfoldable pub enforce_effect : Proctor → Proctor
enforce_effect p =
    let e = enforced p in
    if same e p.was_enforced
    then p
    else record p { screen = if e then p.screen else gate; was_enforced = e }

unfoldable pub effects : Proctor → Proctor
effects p = enforce_effect (lock_effect p)

pub data Event : Type 0 where
  phase_changed : String → Event
  state_read : Option Standing → (phase : String) → (disqualified : Bool) → Event
  left : Kind → Event
  answered : Standing → Event
  unanswered : Event
  resumed : (held : Bool) → Event

-- `report(kind)`, up to its request.
unfoldable pub report : Kind → Proctor → Proctor
report kind p = elim p.screen [
  | ok ↦ record p { screen = alert; last = some kind; posts = p.posts + 1 }
  | _ ↦ p
]

-- The screen that is up, `none` while the competitor may work.
unfoldable pub shown_screen : Proctor → Option Screen
shown_screen p = if not (enforced p) then none else elim (standing p) [
  | none ↦ none
  | some s ↦ elim p.screen [ ok ↦ none | other ↦ some other ]
]

-- The button stands on the gate and on the alert screen only.
abbrev pub has_button : Option Screen → Bool
has_button (some gate) = true
has_button (some alert) = true
has_button _ = false

unfoldable pub step : Proctor → Event → Proctor
step p (phase_changed phase) = effects (record p { phase = phase })
step p (state_read server phase disqualified) =
    let first =
      effects (record p { server = server; phase = phase; disqualified = disqualified }) in
    effects (record first { reported = none })
step p (left kind) = if p.was_enforced then report kind p else p
step p (answered s) =
    effects (record p { reported = some s; screen = if s.locked then locked else p.screen })
step p unanswered = p
step p (resumed held) = if has_button (shown_screen p) && held then record p { screen = ok } else p

unfoldable pub steps : Proctor → List Event → Proctor
steps p [] = p
steps p (e ∷ rest) = steps (step p e) rest

-- `HoldBody`: the warnings that are left, and the number of the one on the screen.
unfoldable warnings_left : Standing → ℕ
warnings_left s = s.warnings - s.alerts

unfoldable warning_number : Standing → ℕ
warning_number s = min s.alerts s.warnings

-- ===== src/Arena/Blackout.antt =====
-- web/src/components/contest/blackout-overlay.tsx: the screen of a blacked-out competitor. `Date.parse`
-- has been applied to `ends_at`; where it gave no number there is none.
use codolympics.Prelude.{
  ℕ, ◌+◌, ◌-◌, ◌/◌, ◌%◌, Bool, true, false, not, ◌&&◌, List, [], ◌∷◌, Option, none, some,
  if◌then◌else◌, ◌==◌, ℤ, pos_part, neg_part, String, includes, ◌++◌,
}

pub record State : Type 0 where
  pub active : Bool
  pub ends_at : Option ℕ
  pub count : ℕ
  pub by : List String

-- `sent` counts the requests of `/api/blackout`.
pub record Overlay : Type 0 where
  pub initial : Option State
  pub live : Option State
  pub checking : Bool
  pub at_zero : Bool
  pub sent : ℕ

unfoldable pub current : Overlay → Option State
current o = elim o.live [ none ↦ o.initial | some s ↦ some s ]

abbrev pub is_active : Option State → Bool
is_active none = false
is_active (some s) = s.active

unfoldable pub shown : Overlay → Bool
unfolding current
shown o = is_active (current o)

-- `check()`: at most one at a time.
unfoldable pub check : Overlay → Overlay
check o = if o.checking then o else record o { checking = true; sent = o.sent + 1 }

pub data Event : Type 0 where
  powerup : Event
  heartbeat : (hidden : Bool) → Event
  tick : ℤ → Event
  answered : (now : ℤ) → State → Event
  failed : Event
  page_read : (now : ℤ) → Option State → Event

-- `endsAt`, of an active blackout, is a time from which the clock can count.
unfoldable time_left : Option ℕ → ℤ → ℕ
time_left none now = 0
time_left (some t) now = if t == 0 then 0 else t + neg_part now - pos_part now

-- `endsAt ? Math.max(0, endsAt - serverNow()) : 0`, of an active blackout.
unfoldable pub left_ms : Overlay → ℤ → ℕ
unfolding current time_left
left_ms o now = elim (current o) [
  | none ↦ 0
  | some s ↦ if s.active then time_left s.ends_at now else 0
]

-- A render, and its effect on `[current?.active, left, check]`: it asks when zero is reached, and not
-- again while it stays reached. `at_zero` is whether the last render was at zero.
unfoldable pub redraw : ℤ → Overlay → Overlay
unfolding current left_ms check
redraw now o =
    let zero_now = is_active (current o) && left_ms o now == 0 in
    if zero_now && not o.at_zero
    then check (record o { at_zero = zero_now })
    else record o { at_zero = zero_now }

unfoldable pub step : Overlay → Event → Overlay
unfolding check redraw
step o powerup = check o
step o (heartbeat hidden) = if hidden then o else check o
step o (tick now) = redraw now o
step o (answered now s) =
    if o.checking then redraw now (record o { live = some s; checking = false }) else o
step o failed = if o.checking then record o { checking = false } else o
step o (page_read now s) = redraw now (record o { initial = s })

unfoldable pub steps : Overlay → List Event → Overlay
steps o [] = o
steps o (e ∷ rest) = steps (step o e) rest

pub record Clock : Type 0 where
  pub minutes : ℕ
  pub seconds : ℕ
  pub total : ℕ

-- `mm`, `ss` and `secs` for the time left.
unfoldable pub clock : ℕ → Clock
clock left =
    let secs = (left + 999) / 1000 in
    record { minutes = secs / 60; seconds = secs % 60; total = secs }

-- `current.by.filter((n, i, a) => a.indexOf(n) === i)`: the first of each name.
unfoldable firsts : List String → List String → List String
firsts before [] = []
firsts before (n ∷ rest) =
    let later = firsts (before ++ n ∷ []) rest in if includes before n then later else n ∷ later

-- ===== src/Widgets/Clock.antt =====
-- web/src/components/countdown.tsx, web/src/components/ui/countdown-ring.tsx and the durations of
-- web/src/components/admin/standings.tsx and web/src/components/contest/auction-floor.tsx. Times are
-- milliseconds; `Date.parse` has been applied to `until`. The numbers of a text are given, not their
-- digits: `padStart(2, "0")` writes what is below 100 with two.
use codolympics.Prelude.{
  ℕ, ◌+◌, ◌-◌, ◌*◌, ◌/◌, ◌%◌, Bool, false, ◌&&◌, Option, none, some, if◌then◌else◌, ltb, leb, ◌==◌,
  min, ℤ, pos_part, neg_part,
}

-- `Math.max(0, until - serverNow())`.
unfoldable pub remaining_ms : Option ℕ → ℤ → ℕ
remaining_ms none now = 0
remaining_ms (some until) now = until + neg_part now - pos_part now

pub data Display : Type 0 where
  dash : Display
  minutes : (m s : ℕ) → Display
  hours : (h m s : ℕ) → Display

-- The text of `Countdown`, and whether it is shown as a warning.
unfoldable pub countdown : (warn_under : ℕ) → Option ℕ → ℤ → Display × Bool
unfolding remaining_ms
countdown warn_under none now = (dash, false)
countdown warn_under (some until) now =
    let ms = remaining_ms (some until) now in
    let s = ms / 1000 in
    (
      if leb 3600 s then hours (s / 3600) (s % 3600 / 60) (s % 60) else minutes (s / 60) (s % 60),
      ltb ms warn_under && ltb 0 ms,
    )

pub record Ring : Type 0 where
  pub seconds : Option ℕ
  pub filled : ℕ  -- of `whole`
  pub whole : ℕ
  pub urgent : Bool

-- `CountdownRing`: the fraction `min(1, ms / (total * 1000))` as `filled` of `whole`, and 0 of 1
-- without a total.
unfoldable pub ring : Option ℕ → (total_seconds : ℕ) → ℤ → Ring
unfolding remaining_ms
ring until total_seconds now =
    let ms = remaining_ms until now in
    record {
      seconds = elim until [ none ↦ none | some t ↦ some ((ms + 999) / 1000) ];
      filled = if ltb 0 total_seconds then min (total_seconds * 1000) ms else 0;
      whole = if ltb 0 total_seconds then total_seconds * 1000 else 1;
      urgent = ltb 0 ms && ltb ms 5000;
    }

-- `Math.round(ms / 1000)`, a half going up.
unfoldable round_seconds : ℕ → ℕ
round_seconds ms = (ms + 500) / 1000

pub data Duration : Type 0 where
  h_m : (h m : ℕ) → Duration
  m_s : (m s : ℕ) → Duration

-- `duration(ms)` of the standings.
unfoldable duration : ℕ → Duration
unfolding round_seconds
duration ms =
    let s = round_seconds ms in
    if s / 3600 == 0 then m_s (s % 3600 / 60) (s % 60) else h_m (s / 3600) (s % 3600 / 60)

pub data Ago : Type 0 where
  just_now : Ago
  seconds_ago minutes_ago : ℕ → Ago

-- `ago(iso, now)` of the bid feed.
unfoldable ago : (at now : ℕ) → Ago
unfolding round_seconds
ago at now =
    let s = round_seconds (now - at) in
    if ltb s 5 then just_now else if ltb s 60 then seconds_ago s else minutes_ago (s / 60)

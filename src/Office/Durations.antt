-- ===== src/Office/Durations.antt =====
-- How a time is written: `duration` of web/src/app/(app)/admin/judge/work.tsx and of
-- web/src/components/admin/standings.tsx. Times are whole numbers of milliseconds, not below 0.
use codolympics.Prelude.{ℕ, ◌+◌, ◌/◌, ◌%◌, Option, none, some, if◌then◌else◌, ltb, ℤ}
use codolympics.Roster.Record.{seconds}

-- By its parts: a dash; `840 ms`; `2.4 s`, in tenths; `1m 12s`.
pub data Length : Type 0 where
  dash : Length
  in_ms : ℕ → Length
  in_tenths : ℕ → Length
  in_minutes : (m s : ℕ) → Length

-- `Math.round(ms / 1000)`.
abbrev pub rounded : ℕ → ℕ
rounded ms = (ms + 500) / 1000

-- work.tsx; `toFixed(1)` of a number of milliseconds over a thousand rounds to the next tenth.
unfoldable pub length_of : Option ℕ → Length
length_of none = dash
length_of (some ms) =
    if ltb ms 1000
    then in_ms ms
    else if ltb ms 60000
    then in_tenths ((ms + 50) / 100)
    else in_minutes (ms / 60000) (rounded (ms % 60000))

-- standings.tsx: `1h 05m`, or `5m 09s`.
pub data Span : Type 0 where
  hours : (h m : ℕ) → Span
  minutes : (m s : ℕ) → Span

unfoldable pub span_of : ℤ → Span
unfolding seconds
span_of ms =
    let s = seconds ms in
    if ltb 0 (s / 3600) then hours (s / 3600) (s % 3600 / 60) else minutes (s % 3600 / 60) (s % 60)

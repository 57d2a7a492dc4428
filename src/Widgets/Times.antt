-- ===== src/Widgets/Times.antt =====
-- countdown.tsx, countdown-ring.tsx, standings.tsx: the digits on the clocks.
use codolympics.Prelude.{
  ℕ, ◌+◌, ◌*◌, ◌/◌, ◌%◌, ◌≤◌, ◌<◌, ◌≡◌, refl, true, some, arith, if◌then◌else◌, leb, ℤ, ◌↔◌,
  Bool-cases, inl, inr, leb→le,
}
use codolympics.Widgets.Clock.{remaining_ms, Display, dash, minutes, hours, countdown, ring}

-- The seconds that a display stands for, and that its fields are written with two digits.
abbrev pub seconds_of : Display → ℕ
seconds_of dash = 0
seconds_of (minutes m s) = m * 60 + s
seconds_of (hours h m s) = h * 3600 + m * 60 + s

abbrev pub HasClockDigits : Display → Type 0
HasClockDigits dash = Unit
HasClockDigits (minutes m s) = (m < 60) × (s < 60)
HasClockDigits (hours h m s) = (0 < h) × (m < 60) × (s < 60)

shown_seconds :
    (s : ℕ)
    → seconds_of (
        if leb 3600 s then hours (s / 3600) (s % 3600 / 60) (s % 60) else minutes (s / 60) (s % 60))
      ≡ s
shown_seconds s = ground arith

shown_digits :
    (s : ℕ)
    → HasClockDigits (
        if leb 3600 s then hours (s / 3600) (s % 3600 / 60) (s % 60) else minutes (s / 60) (s % 60))
shown_digits s = elim (Bool-cases (leb 3600 s)) [
  | inl e ↦ rw e (omega (arith, leb→le 3600 s e))
  | inr e ↦ rw e (ground arith)
]

-- The countdown shows the whole seconds that are left, with minutes and seconds below 60 and hours only
-- from an hour on, and warns exactly while the time left is under the limit and not over.
pub countdown_lem :
    (warn_under until : ℕ) (now : ℤ)
    → let ms = remaining_ms (some until) now in
      let d = countdown warn_under (some until) now in
      (seconds_of d.0 ≡ ms / 1000)
      × HasClockDigits d.0
      × ((d.1 ≡ true) ↔ ((ms < warn_under) × (0 < ms)))
unfolding countdown
countdown_lem warn_under until now = (
  shown_seconds (remaining_ms (some until) now / 1000),
  shown_digits (remaining_ms (some until) now / 1000),
  ground arith,
)

-- The ring is never more than full, shows the seconds left rounded up, and is empty once they are over.
ring_lem :
    (until total : ℕ) (now : ℤ)
    → let ms = remaining_ms (some until) now in
      let r = ring (some until) total now in
      (r.filled ≤ r.whole)
      × (0 < r.whole)
      × ((s : ℕ) × (r.seconds ≡ some s) × (ms ≤ s * 1000) × (s * 1000 < ms + 1000))
unfolding ring
ring_lem until total now = (
  ground arith,
  ground arith,
  ((remaining_ms (some until) now + 999) / 1000, refl, omega arith, omega arith),
)

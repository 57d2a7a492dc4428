-- ===== src/Office/Carries.antt =====
-- The parts of a written time against the time.
use codolympics.Prelude.{ℕ, ◌+◌, ◌*◌, ◌/◌, ◌%◌, ◌≤◌, ◌<◌, ◌≡◌, ltb, if_ind, some, arith, ℤ}
use codolympics.Roster.Record.{seconds}
use codolympics.Office.Durations.{in_minutes, rounded, length_of, Span, hours, minutes, span_of}

-- The parts are within their units, and stand for the seconds, less what a span of hours leaves out.
abbrev pub Spans : ℕ → Span → Type 0
Spans s (hours h m) = (m < 60) × (h * 3600 + m * 60 ≤ s) × (s < h * 3600 + m * 60 + 60)
Spans s (minutes m r) = (m < 60) × (r < 60) × (m * 60 + r ≡ s)

-- Solve times on the boards: rounded first and split afterwards, so that each part stays within its unit.
pub span_of-Spans : (ms : ℤ) → Spans (seconds ms) (span_of ms)
unfolding span_of
span_of-Spans ms =
    if_ind (Spans (seconds ms)) (ltb 0 (seconds ms / 3600)) _ _ (λ t. ground arith)
      (λ f. ground arith)

-- The judge's list splits first and rounds afterwards: from a minute on, the last half second of each
-- minute is written as 60 seconds, and no other time is.
pub sixty_seconds_iff :
    (ms : ℕ)
    → 60000 ≤ ms
    → (length_of (some ms) ≡ in_minutes (ms / 60000) (rounded (ms % 60000)))
      × (59500 ≤ ms % 60000 → rounded (ms % 60000) ≡ 60)
      × (ms % 60000 < 59500 → rounded (ms % 60000) < 60)
unfolding length_of
sixty_seconds_iff ms h = (ground arith, (λ k. omega arith), (λ k. omega arith))

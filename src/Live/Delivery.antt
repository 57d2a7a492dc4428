-- ===== src/Live/Delivery.antt =====
-- contest-provider.tsx: which events the poll loop hands to `apply`. The engine is not
-- under the web client: its log is a list of events with rising ids, and what the loop relies on is
-- that the answer to `?after=c` without `reset` holds the log's events above `c` up to its cursor.
use codolympics.Prelude.{
  ℕ, ◌+◌, ◌≤◌, ◌<◌, ◌≡◌, refl, sym, ap, ◌∙◌, Bool, true, false, ◌&&◌, List, [], ◌∷◌, ◌++◌, Option,
  none, some, arith, if◌then◌else◌, leb, ltb, keep, All, Bool-cases, inl, inr,
}
use mathlib.Core.List.{append-nil, append_assoc}
use codolympics.Live.{EngineEvent, Poll, ContestState, opened, lost_after_failures}
use codolympics.Live.Heard.{apply_all-heard, note_server_now-heard, read_state-heard}
use codolympics.Live.Events.{Client, note_server_now}
use codolympics.Live.Polling.{
  Loop, Tick, hidden, unanswered, answered, lose, read_state, take_events, catch_failure, is_gap,
  tick, ticks,
}

abbrev pub Rising : List EngineEvent → Type 0
Rising [] = Unit
Rising (e ∷ rest) = All (λ e'. e.id < e'.id) rest × Rising rest

-- The log's events with `lo < id ≤ hi`.
abbrev is_between : ℕ → ℕ → EngineEvent → Bool
is_between lo hi e = ltb lo e.id && leb e.id hi

unfoldable pub span : ℕ → ℕ → List EngineEvent → List EngineEvent
span lo hi log = keep (is_between lo hi) log

span-above : (lo hi : ℕ) (log : List EngineEvent) → All (λ e. hi < e.id) log → span lo hi log ≡ []
unfolding span
span-above lo hi [] h = refl
span-above lo hi (e ∷ rest) (p, h) = ground (arith, span-above lo hi rest h)

span_self : (c : ℕ) (log : List EngineEvent) → span c c log ≡ []
unfolding span
span_self c [] = refl
span_self c (e ∷ rest) = ground (arith, span_self c rest)

All-above :
    (m n : ℕ) (log : List EngineEvent) → m ≤ n → All (λ e. n < e.id) log → All (λ e. m < e.id) log
All-above m n [] le h = tt
All-above m n (e ∷ rest) le (p, h) = (omega arith, All-above m n rest le h)

-- Two neighbouring stretches of a rising log join up.
span-append :
    (a b c : ℕ) (log : List EngineEvent)
    → a ≤ b
    → b ≤ c
    → Rising log
    → span a b log ++ span b c log ≡ span a c log
unfolding span
span-append a b c [] p q r = refl
span-append a b c (e ∷ rest) p q (h, r) = elim (Bool-cases (leb e.id b)) [
  | inl low ↦ ground (arith, span-append a b c rest p q r)
  | inr high ↦ ground (
    arith,
    span-append a b c rest p q r,
    span-above a b rest (All-above b e.id rest (ground arith) h),
  )
]

abbrev noted : ℕ → Poll → Loop → Client
noted now poll l = note_server_now now (some poll.server_now) l.client

noted-heard : (now : ℕ) (poll : Poll) (l : Loop) → (noted now poll l).heard ≡ l.client.heard
noted-heard now poll l = note_server_now-heard now (some poll.server_now) l.client

module _ (log : List EngineEvent) where
  -- The engine's part, for the answers to this run of ticks.
  abbrev pub Honest : Loop → List Tick → Type 0
  Honest l [] = Unit
  Honest l (hidden ∷ rest) = Honest (tick l hidden) rest
  Honest l (unanswered ∷ rest) = Honest (tick l unanswered) rest
  Honest l (answered now poll fresh ∷ rest) =
      (l.cursor ≤ poll.cursor)
      × (poll.events ≡ span l.cursor poll.cursor log)
      × Honest (tick l (answered now poll fresh)) rest

  -- All that was told since the loop stood at `start`.
  record Delivered (start : ℕ) (before : List EngineEvent) (l : Loop) : Type 0 where
    onward : start ≤ l.cursor
    exact : l.client.heard ≡ before ++ span start l.cursor log

  module _ (rising : Rising log) (start : ℕ) (before : List EngineEvent) where
    take_events-Delivered :
        (now : ℕ) (poll : Poll) (c : Client) (l : Loop)
        → c.heard ≡ l.client.heard
        → l.cursor ≤ poll.cursor
        → poll.events ≡ span l.cursor poll.cursor log
        → Delivered start before l
        → Delivered start before (take_events now poll c l)
    unfolding take_events
    take_events-Delivered now poll c l same p e d = record {
      onward = omega (arith, d.onward);
      exact =
          apply_all-heard now poll.events (record c { connection = opened })
          ∙ ap (λ (k : List EngineEvent). k ++ poll.events) (same ∙ d.exact)
          ∙ ap (λ (k : List EngineEvent). (before ++ span start l.cursor log) ++ k) e
          ∙ (append_assoc before (span start l.cursor log) (span l.cursor poll.cursor log)
              ∙ ap (λ s. before ++ s)
                  (span-append start l.cursor poll.cursor log d.onward p rising));
    }

    if-Delivered :
        (b : Bool) (x y : Loop)
        → Delivered start before x
        → Delivered start before y
        → Delivered start before (if b then x else y)
    if-Delivered true x y p q = p
    if-Delivered false x y p q = q

    catch_failure-Delivered :
        (l : Loop) → Delivered start before l → Delivered start before (catch_failure l)
    unfolding catch_failure
    catch_failure-Delivered l d = record {
      onward = d.onward;
      exact = leb_heard (leb lost_after_failures (l.failures + 1)) ∙ d.exact;
    }
      where
        leb_heard :
            (b : Bool)
            → (if b
                then record l.client { connection = lose l.client.connection }
                else l.client).heard
              ≡ l.client.heard
        leb_heard true = refl
        leb_heard false = refl

    answered-Delivered :
        (now : ℕ) (poll : Poll) (fresh : Option ContestState) (l : Loop)
        → l.cursor ≤ poll.cursor
        → poll.events ≡ span l.cursor poll.cursor log
        → Delivered start before l
        → Delivered start before (tick l (answered now poll fresh))
    unfolding tick
    answered-Delivered now poll none l p e d =
        if-Delivered (is_gap poll l) _ _
          (catch_failure-Delivered _
            (record { onward = d.onward; exact = noted-heard now poll l ∙ d.exact }))
          (take_events-Delivered now poll (noted now poll l) l (noted-heard now poll l) p e d)
    answered-Delivered now poll (some fresh) l p e d =
        if-Delivered (is_gap poll l) _ _
          (take_events-Delivered now poll (read_state now fresh (noted now poll l)) l
            (read_state-heard now fresh (noted now poll l) ∙ noted-heard now poll l) p e d)
          (take_events-Delivered now poll (noted now poll l) l (noted-heard now poll l) p e d)

    ticks-Delivered :
        (l : Loop) (ts : List Tick)
        → Honest l ts
        → Delivered start before l
        → Delivered start before (ticks l ts)
    unfolding ticks tick
    ticks-Delivered l [] h d = d
    ticks-Delivered l (hidden ∷ rest) h d = ticks-Delivered l rest h d
    ticks-Delivered l (unanswered ∷ rest) h d =
        ticks-Delivered (catch_failure l) rest h (catch_failure-Delivered l d)
    ticks-Delivered l (answered now poll fresh ∷ rest) (p, e, h) d =
        ticks-Delivered (tick l (answered now poll fresh)) rest h
          (answered-Delivered now poll fresh l p e d)

-- Over a rising log of an honest engine, and whatever polls and re-reads fail in between, a run of
-- ticks applies (and so tells the listeners) exactly the log's events between the cursor it began at
-- and the one it ends at, each once and in the log's order.
pub ticks-applied :
    (log : List EngineEvent) (l : Loop) (ts : List Tick)
    → Rising log
    → Honest log l ts
    → (l.cursor ≤ (ticks l ts).cursor)
      × ((ticks l ts).client.heard ≡ l.client.heard ++ span l.cursor (ticks l ts).cursor log)
ticks-applied log l ts r h =
    let d = ticks-Delivered log r l.cursor l.client.heard l ts h (record {
      onward = omega arith;
      exact = sym (rw (span_self l.cursor log) (append-nil l.client.heard));
    }) in
    (d.onward, d.exact)

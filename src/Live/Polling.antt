-- ===== src/Live/Polling.antt =====
-- contest-provider.tsx, `useEventPolling`: one tick of the loop, and a run of ticks. What the network
-- answers, the browser's clock and whether the tab is hidden are given with each tick; `reread` is the
-- state that `await refresh()` ended with, `none` when that read failed.
use codolympics.Prelude.{
  ℕ, ◌+◌, Bool, true, false, ◌||◌, List, [], ◌∷◌, Option, none, some, if◌then◌else◌, ltb, leb,
}
use codolympics.Live.{
  property, as_number, EngineEvent, Poll, ContestState, Connection, connecting, opened, lost,
  lost_after_failures,
}
use codolympics.Live.Events.{Client, note_server_now, apply}

pub record Loop : Type 0 where
  pub cursor : ℕ
  pub failures : ℕ
  pub client : Client

pub data Tick : Type 0 where
  hidden : Tick
  unanswered : Tick
  answered : (now : ℕ) → Poll → (reread : Option ContestState) → Tick

-- `for (const event of poll.events) apply(event)`.
unfoldable pub apply_all : ℕ → List EngineEvent → Client → Client
apply_all now [] c = c
apply_all now (e ∷ rest) c = apply_all now rest (apply now e c)

-- `refresh()` when it succeeds: the fresh state and the server's clock in it.
unfoldable pub read_state : ℕ → ContestState → Client → Client
unfolding note_server_now
read_state now fresh c =
    note_server_now now (as_number (property "server_now" fresh.contest))
      (record c { state = some fresh })

-- `setConnection((c) => (c === "connecting" ? c : "lost"))`.
abbrev pub lose : Connection → Connection
lose connecting = connecting
lose _ = lost

-- The `catch` of a tick.
unfoldable pub catch_failure : Loop → Loop
catch_failure l =
    let failures = l.failures + 1 in
    record l {
      failures = failures;
      client =
          if leb lost_after_failures failures
          then record l.client { connection = lose l.client.connection }
          else l.client;
    }

-- The rest of `pollOnce`, once the state has been re-read where it had to be.
unfoldable pub take_events : ℕ → Poll → Client → Loop → Loop
take_events now poll c l = record {
  cursor = poll.cursor;
  failures = 0;
  client = apply_all now poll.events (record c { connection = opened });
}

-- Whether the answer shows a gap.
abbrev pub is_gap : Poll → Loop → Bool
is_gap poll l = poll.reset || ltb 0 l.failures

-- `pollOnce` after `/api/poll` has answered; a failed re-read throws out of it.
unfoldable poll_once : ℕ → Poll → Option ContestState → Loop → Loop
unfolding catch_failure take_events
poll_once now poll none l =
    let c = note_server_now now (some poll.server_now) l.client in
    if is_gap poll l then catch_failure (record l { client = c }) else take_events now poll c l
poll_once now poll (some fresh) l =
    let c = note_server_now now (some poll.server_now) l.client in
    if is_gap poll l
    then take_events now poll (read_state now fresh c) l
    else take_events now poll c l

unfoldable pub tick : Loop → Tick → Loop
unfolding poll_once catch_failure
tick l hidden = l
tick l unanswered = catch_failure l
tick l (answered now poll fresh) = poll_once now poll fresh l

unfoldable pub ticks : Loop → List Tick → Loop
ticks l [] = l
ticks l (t ∷ rest) = ticks (tick l t) rest

-- Whether a tick got through: not hidden, answered, and its re-read, where one was due, succeeded.
unfoldable pub succeeds : Loop → Tick → Bool
succeeds l hidden = false
succeeds l unanswered = false
succeeds l (answered now poll (some fresh)) = true
succeeds l (answered now poll none) = if is_gap poll l then false else true

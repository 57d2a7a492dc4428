-- ===== src/Live/Tests.antt =====
-- contest-provider.tsx: runs of the poll loop and of `refresh` on concrete data.
use codolympics.Prelude.{◌≡◌, ◌≤◌, refl, false, List, [], ◌∷◌, ◌++◌, none, some, arith, pos}
use codolympics.Live.{num, text, end, field, property, EngineEvent, Poll, ContestState, connecting}
use codolympics.Live.Refresh.{idle, called, answered, ask, asks, owed, refresh_catches_up}
use codolympics.Live.Events.{Client, apply, apply_other, tell, note_server_now}
use codolympics.Live.Polling.{
  Loop, Tick, hidden, unanswered, answered as answered_poll, take_events, catch_failure, apply_all,
  read_state, tick, ticks,
}
use codolympics.Live.Health.{history, verdict, ticks-connection}
use codolympics.Live.Delivery.{span, ticks-applied}

abbrev bid_event : EngineEvent
bid_event = record { id = 4; name = "auction"; data_fields = field "server_now" (num 9000) end }

abbrev coins_event : EngineEvent
coins_event = record { id = 7; name = "balance"; data_fields = field "balance" (num 120) end }

abbrev log : List EngineEvent
log = bid_event ∷ coins_event ∷ []

abbrev server_state : ContestState
server_state = record {
  contest = field "phase" (text "auction1") end;
  event_cursor = 7;
  me = some (record { balance = 150; others = end });
  auction = none;
  others = end;
}

abbrev client : Client
client = record { state = none; connection = connecting; offset = pos 0; reads = idle; heard = [] }

abbrev loop : Loop
loop = record { cursor = 3; failures = 0; client = client }

abbrev first_poll : Poll
first_poll = record { events = bid_event ∷ []; cursor = 4; reset = false; server_now = 9000 }

abbrev second_poll : Poll
second_poll = record { events = coins_event ∷ []; cursor = 7; reset = false; server_now = 9900 }

abbrev run : List Tick
run =
    answered_poll 8000 first_poll none
    ∷ unanswered
    ∷ hidden
    ∷ answered_poll 9000 second_poll (some server_state)
    ∷ []

ticks-applied_example :
    (3 ≤ (ticks loop run).cursor)
    × ((ticks loop run).client.heard ≡ [] ++ span 3 (ticks loop run).cursor log)
unfolding ticks tick catch_failure take_events span idle
ticks-applied_example =
    ticks-applied log loop run ((omega arith, tt), (tt, tt))
      (omega arith, refl, (omega arith, refl, tt))

delivered : (ticks loop run).client.heard ≡ log
unfolding ticks tick catch_failure take_events span idle apply_all apply apply_other property tell
    note_server_now read_state
delivered = refl

ticks-connection_example :
    (ticks loop run).client.connection
    ≡ verdict (history loop run (record { ever = false; missed = 0 }))
ticks-connection_example = ticks-connection loop run refl refl

refresh_catches_up_example : owed idle false (called ∷ called ∷ answered ∷ answered ∷ []) ≡ false
unfolding idle asks ask
refresh_catches_up_example = refresh_catches_up (called ∷ called ∷ answered ∷ answered ∷ []) tt refl

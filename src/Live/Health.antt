-- ===== src/Live/Health.antt =====
-- contest-provider.tsx: when the chrome reports the connection lost.
use codolympics.Prelude.{
  ℕ, ◌+◌, ◌≡◌, refl, Bool, true, false, String, List, [], ◌∷◌, Option, none, some, arith,
  if◌then◌else◌, leb, ◌∙◌, str_eq, includes,
}
use codolympics.Live.{
  EngineEvent, Poll, Fields, property, as_number, Connection, connecting, opened, lost,
  lost_after_failures,
}
use codolympics.Live.Events.{
  Client, apply, apply_other, tell, note_server_now, is_final_verdict, reread_names,
}
use codolympics.Live.Polling.{
  Loop, Tick, hidden, unanswered, answered, apply_all, read_state, take_events, catch_failure,
  is_gap, tick, ticks, succeeds,
}

-- What a history of ticks says of the connection, read off which ticks got through and which failed.
pub record Health : Type 0 where
  pub ever : Bool
  pub missed : ℕ

abbrev is_hidden : Tick → Bool
is_hidden hidden = true
is_hidden _ = false

-- A tick that got through starts the count again; a hidden one says nothing; any other is a miss.
abbrev pub observe : Loop → Tick → Health → Health
observe l t h =
    if succeeds l t
    then record { ever = true; missed = 0 }
    else if is_hidden t
    then h
    else record h { missed = h.missed + 1 }

unfoldable pub history : Loop → List Tick → Health → Health
unfolding tick succeeds
history l [] h = h
history l (t ∷ rest) h = history (tick l t) rest (observe l t h)

-- What the chrome must report.
abbrev pub verdict : Health → Connection
verdict h =
    if h.ever then (if leb lost_after_failures h.missed then lost else opened) else connecting

record Agrees (l : Loop) (h : Health) : Type 0 where
  counted : l.failures ≡ h.missed
  reported : l.client.connection ≡ verdict h

if-connection :
    (b : Bool) (x y : Client) (k : Connection)
    → x.connection ≡ k
    → y.connection ≡ k
    → (if b then x else y).connection ≡ k
if-connection true x y k p q = p
if-connection false x y k p q = q

note_server_now-connection :
    (now : ℕ) (o : Option ℕ) (c : Client) → (note_server_now now o c).connection ≡ c.connection
unfolding note_server_now
note_server_now-connection now none c = refl
note_server_now-connection now (some s) c = refl

apply_other-connection :
    (name : String) (d : Fields) (o : Option ℕ) (c : Client)
    → (apply_other name d o c).connection ≡ c.connection
unfolding apply_other
apply_other-connection name d none c =
    if-connection (str_eq name "verdict") _ _ _ (if-connection (is_final_verdict d) _ _ _ refl refl)
      (if-connection (includes reread_names name) _ _ _ refl refl)
apply_other-connection name d (some b) c = if-connection (str_eq name "balance") _ _ _ refl (
    if-connection (str_eq name "verdict") _ _ _ (if-connection (is_final_verdict d) _ _ _ refl refl)
      (if-connection (includes reread_names name) _ _ _ refl refl))

apply-connection :
    (now : ℕ) (e : EngineEvent) (c : Client) → (apply now e c).connection ≡ c.connection
unfolding apply tell
apply-connection now e c =
    let o = as_number (property "server_now" e.data_fields) in
    if-connection (str_eq e.name "auction") _ _ _ (note_server_now-connection now o c) (
      if-connection (str_eq e.name "phase") _ _ _ (note_server_now-connection now o c) (
        apply_other-connection e.name e.data_fields _ (tell e (note_server_now now o c))
        ∙ note_server_now-connection now o c))

apply_all-connection :
    (now : ℕ) (es : List EngineEvent) (c : Client) → (apply_all now es c).connection ≡ c.connection
unfolding apply_all
apply_all-connection now [] c = refl
apply_all-connection now (e ∷ rest) c =
    apply_all-connection now rest (apply now e c) ∙ apply-connection now e c

take_events-Agrees :
    (now : ℕ) (poll : Poll) (c : Client) (l : Loop)
    → Agrees (take_events now poll c l) (record { ever = true; missed = 0 })
unfolding take_events
take_events-Agrees now poll c l = record {
  counted = refl;
  reported = apply_all-connection now poll.events (record c { connection = opened });
}

abbrev miss : Health → Health
miss h = record h { missed = h.missed + 1 }

catch_failure-Agrees : (l : Loop) (h : Health) → Agrees l h → Agrees (catch_failure l) (miss h)
unfolding catch_failure
catch_failure-Agrees l h a = ground arith

gap-Agrees :
    (b : Bool) (x y : Loop) (h k : Health)
    → Agrees x h
    → Agrees y k
    → Agrees (if b then x else y) (if (if b then false else true) then k else h)
gap-Agrees true x y h k p q = p
gap-Agrees false x y h k p q = q

if-Agrees :
    (b : Bool) (x y : Loop) (h : Health) → Agrees x h → Agrees y h → Agrees (if b then x else y) h
if-Agrees true x y h p q = p
if-Agrees false x y h p q = q

tick-Agrees : (l : Loop) (t : Tick) (h : Health) → Agrees l h → Agrees (tick l t) (observe l t h)
unfolding tick succeeds
tick-Agrees l hidden h a = a
tick-Agrees l unanswered h a = catch_failure-Agrees l h a
tick-Agrees l (answered now poll none) h a =
    let c = note_server_now now (some poll.server_now) l.client in
    gap-Agrees (is_gap poll l) _ _ (miss h) _
      (catch_failure-Agrees (record l { client = c }) h
        (record {
          counted = a.counted;
          reported = note_server_now-connection now (some poll.server_now) l.client ∙ a.reported;
        }))
      (take_events-Agrees now poll c l)
tick-Agrees l (answered now poll (some fresh)) h a =
    let c = note_server_now now (some poll.server_now) l.client in
    if-Agrees (is_gap poll l) _ _ _ (take_events-Agrees now poll (read_state now fresh c) l)
      (take_events-Agrees now poll c l)

ticks-Agrees :
    (l : Loop) (ts : List Tick) (h : Health) → Agrees l h → Agrees (ticks l ts) (history l ts h)
unfolding ticks history
ticks-Agrees l [] h a = a
ticks-Agrees l (t ∷ rest) h a = ticks-Agrees (tick l t) rest (observe l t h) (tick-Agrees l t h a)

-- From a fresh loop and whatever happens to the polls, the connection is reported as "connecting"
-- before the first one that gets through, as open while fewer than three have failed since the last
-- one that did, and as lost from the third failure on; a hidden tab's ticks count for nothing.
pub ticks-connection :
    (l : Loop) (ts : List Tick)
    → l.failures ≡ 0
    → l.client.connection ≡ connecting
    → (ticks l ts).client.connection ≡ verdict (history l ts (record { ever = false; missed = 0 }))
ticks-connection l ts f c =
    (ticks-Agrees l ts (record { ever = false; missed = 0 })
      (record { counted = f; reported = c })).reported

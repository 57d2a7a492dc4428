-- ===== src/Live/Events.antt =====
-- contest-provider.tsx, `apply`, `noteServerNow` and `useEngineEvent`: what one event does to the
-- client, and which handlers hear it.
use codolympics.Prelude.{
  ℕ, Bool, false, ◌||◌, String, List, [], ◌∷◌, ◌++◌, Option, none, some, ℤ, pos, sub_ℕ,
  if◌then◌else◌, str_eq, includes, ◌+ℤ◌,
}
use codolympics.Live.{
  Fields, property, as_number, is_text, truthy, EngineEvent, ContestState, Connection,
}
use codolympics.Live.Refresh.{Reading, call}

-- What the provider keeps. `offset` is the server's clock less the browser's; `heard` is what the
-- listeners have been told, oldest first.
pub record Client : Type 0 where
  pub state : Option ContestState
  pub connection : Connection
  pub offset : ℤ
  pub reads : Reading
  pub heard : List EngineEvent

-- `noteServerNow`: a value that is no number is ignored.
unfoldable pub note_server_now : ℕ → Option ℕ → Client → Client
note_server_now now none c = c
note_server_now now (some server) c = record c { offset = sub_ℕ server now }

-- `serverNow()`.
unfoldable pub server_now : ℕ → Client → ℤ
server_now now c = pos now +ℤ c.offset

-- `setState((s) => (s ? f(s) : s))`.
abbrev update_state : (ContestState → ContestState) → Client → Client
update_state f c = record c { state = elim c.state [ none ↦ none | some s ↦ some (f s) ] }

-- The listeners are told of an event.
unfoldable pub tell : EngineEvent → Client → Client
tell e c = record c { heard = c.heard ++ e ∷ [] }

abbrev with_balance : ℕ → ContestState → ContestState
with_balance balance s = record s {
  me = elim s.me [ none ↦ none | some m ↦ some (record m { balance = balance }) ];
}

abbrev reread : Client → Client
reread c = record c { reads = call c.reads }

-- A verdict moves anything else only when the judgement is finished.
abbrev pub is_final_verdict : Fields → Bool
is_final_verdict data_fields =
    is_text "done" (property "state" data_fields)
    || truthy (property "cancelled" data_fields)
    || truthy (property "rejudge" data_fields)

abbrev pub reread_names : List String
reread_names = "balance" ∷ "notify" ∷ "announce" ∷ "hack" ∷ "powerup" ∷ []

-- The branches of `apply` below "auction" and "phase", for a `data.balance` already looked up.
unfoldable pub apply_other : String → Fields → Option ℕ → Client → Client
apply_other name data_fields (some balance) c =
    if str_eq name "balance"
    then update_state (with_balance balance) c
    else if str_eq name "verdict"
    then if is_final_verdict data_fields then reread c else c
    else if includes reread_names name
    then reread c
    else c
apply_other name data_fields none c =
    if str_eq name "verdict"
    then if is_final_verdict data_fields then reread c else c
    else if includes reread_names name
    then reread c
    else c

-- `apply(event)` at the browser's time `now`, on what the provider keeps: what the loop over the listeners
-- does to the screens is `broadcast`.
unfoldable pub apply : ℕ → EngineEvent → Client → Client
apply now e c =
    let c' = tell e (note_server_now now (as_number (property "server_now" e.data_fields)) c) in
    if str_eq e.name "auction"
    then update_state (λ s. record s { auction = some e.data_fields }) c'
    else if str_eq e.name "phase"
    then update_state (λ s. record s { contest = e.data_fields }) c'
    else apply_other e.name e.data_fields (as_number (property "balance" e.data_fields)) c'

-- A subscribed handler over the screens' state: what it leaves behind, and whether it threw.
abbrev pub Listener : Type 0 → Type 0
Listener Screens = EngineEvent → Screens → Screens × Bool

-- The loop over `listeners.current`: what a handler throws is swallowed.
unfoldable broadcast :
    {Screens : Type 0} → List (Listener Screens) → EngineEvent → Screens → Screens
broadcast [] e s = s
broadcast (listener ∷ rest) e s = broadcast rest e (listener e s).0

-- `useEngineEvent(names, handler)`: the listener that it subscribes.
unfoldable engine_event : {Screens : Type 0} → List String → Listener Screens → Listener Screens
engine_event wanted handler e s =
    if includes wanted "*" || includes wanted e.name then handler e s else (s, false)

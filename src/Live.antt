-- ===== src/Live.antt =====
-- web/src/components/contest-provider.tsx: the client's view of the contest, kept live by polling.
-- The types that the provider, its poll loop and its re-read share. A JSON value is `Value`; the
-- parts of the state that the provider never looks into (`contest`, `auction`, an announcement's
-- text) are kept as the JSON objects they arrive as, since the source's casts do nothing at run time.
pub mod Refresh
pub mod Events
pub mod Polling
pub mod Heard
pub mod Health
pub mod Delivery
pub mod Gaps
mod Tests
use codolympics.Prelude.{ℕ, Bool, true, false, not, String, List, [], ◌∷◌, Option, none, some, ℤ}
use codolympics.Prelude.{if◌then◌else◌, str_eq, ◌==◌}

mutual
  pub data Value : Type 0 where
    null : Value
    flag : Bool → Value
    num : ℕ → Value
    text : String → Value
    array : Items → Value
    object : Fields → Value

  pub data Items : Type 0 where
    no_items : Items
    item : Value → Items → Items

  pub data Fields : Type 0 where
    end : Fields
    field : String → Value → Fields → Fields

-- `data.key`; `none` is `undefined`.
unfoldable pub property : String → Fields → Option Value
property key end = none
property key (field k v fs) = if str_eq k key then some v else property key fs

-- `typeof v === "number"`, with the number.
abbrev pub as_number : Option Value → Option ℕ
as_number (some (num n)) = some n
as_number _ = none

abbrev pub is_text : String → Option Value → Bool
is_text s (some (text t)) = str_eq t s
is_text s _ = false

-- Whether JavaScript takes a value for true.
abbrev pub truthy : Option Value → Bool
truthy none = false
truthy (some null) = false
truthy (some (flag b)) = b
truthy (some (num n)) = not (n == 0)
truthy (some (text t)) = not (str_eq t "")
truthy (some (array xs)) = true
truthy (some (object fs)) = true

pub record EngineEvent : Type 0 where
  pub id : ℕ
  pub name : String
  pub data_fields : Fields

pub record Poll : Type 0 where
  pub events : List EngineEvent
  pub cursor : ℕ
  pub reset : Bool
  pub server_now : ℕ

pub record Me : Type 0 where
  pub balance : ℕ
  pub others : Fields

pub record ContestState : Type 0 where
  pub contest : Fields
  pub event_cursor : ℕ
  pub me : Option Me
  pub auction : Option Fields
  pub others : Fields

pub data Connection : Type 0 where
  connecting opened lost : Connection

abbrev poll_ms : ℕ
poll_ms = 1000

abbrev pub lost_after_failures : ℕ
lost_after_failures = 3

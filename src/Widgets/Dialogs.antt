-- ===== src/Widgets/Dialogs.antt =====
-- web/src/components/action-button.tsx and reason-action.tsx: the organisers' buttons that act at once,
-- after a plain confirmation, or with a reason for the audit log. `onAct` and `onConfirm` are requests,
-- whose ends are events; `String.prototype.trim` is a parameter.
use codolympics.Prelude.{
  ℕ, ◌+◌, Bool, true, false, not, ◌&&◌, ◌||◌, String, List, [], ◌∷◌, ◌++◌, Option, none, some,
  if◌then◌else◌, ltb, str_eq,
}
use Prim.Native.Char.{code}

-- `acts` counts the calls of `onAct`.
pub record Button : Type 0 where
  pub busy : Bool
  pub asking : Bool
  pub acts : ℕ

pub data Press : Type 0 where
  pressed confirmed cancelled done failed : Press

-- `run()`, up to its request.
unfoldable pub run : Button → Button
run b = record b { busy = true; acts = b.acts + 1 }

-- `ActionButton`, with or without `confirm`. The dialog is there while it asks.
unfoldable pub press : (confirm disabled : Bool) → Button → Press → Button
unfolding run
press confirm disabled b pressed =
    if disabled || (b.busy && not b.asking)
    then b
    else if confirm
    then record b { asking = true }
    else run b
press confirm disabled b confirmed = if confirm && (b.asking && not b.busy) then run b else b
press confirm disabled b cancelled = record b { asking = false }
press confirm disabled b done = if b.busy then record b { busy = false; asking = false } else b
press confirm disabled b failed = if b.busy then record b { busy = false } else b

-- `s.length`: a character outside the basic plane counts twice.
unfoldable pub size : String → ℕ
size String.[] = 0
size (String.◌∷◌ c s) = (if ltb 65535 (code c) then 2 else 1) + size s

-- The values of the extra fields by their names.
abbrev pub Values : Type 0
Values = List (String × String)

unfoldable with_value : String → String → Values → Values
with_value name value [] = (name, value) ∷ []
with_value name value ((n, v) ∷ rest) =
    if str_eq n name then (name, value) ∷ rest else (n, v) ∷ with_value name value rest

-- `sent` is what `onConfirm` has been called with.
pub record Dialog : Type 0 where
  pub is_open : Bool
  pub reason : String
  pub values : Values
  pub error : Option String
  pub busy : Bool
  pub sent : List (String × Values)

pub data Step : Type 0 where
  opened closed : Step
  wrote : String → Step
  filled : (name value : String) → Step
  ticked : (name : String) → Bool → Step
  confirmed done : Step
  refused : String → Step

-- `disabled={reason.trim().length < 3}`, and `loading={busy}`.
unfoldable pub can_confirm : (trim : String → String) → Dialog → Bool
unfolding size
can_confirm trim d = d.is_open && not (d.busy || ltb (size (trim d.reason)) 3)

-- `ReasonAction`, with `defaultReason` and `disabled`.
unfoldable pub take :
    (trim : String → String) → (default : String) → (disabled : Bool) → Dialog → Step → Dialog
unfolding can_confirm with_value
take trim default disabled d opened =
    if disabled then d else record d { reason = default; error = none; is_open = true }
take trim default disabled d closed = record d { is_open = false }
take trim default disabled d (wrote text) = record d { reason = text }
take trim default disabled d (filled name value) = record d {
  values = with_value name value d.values;
}
take trim default disabled d (ticked name checked) = record d {
  values = with_value name (if checked then "1" else "") d.values;
}
take trim default disabled d confirmed =
    if can_confirm trim d
    then record d { busy = true; error = none; sent = d.sent ++ (trim d.reason, d.values) ∷ [] }
    else d
take trim default disabled d done =
    if d.busy then record d { is_open = false; reason = default; busy = false } else d
take trim default disabled d (refused why) =
    if d.busy then record d { error = some why; busy = false } else d

unfoldable pub takes :
    (trim : String → String) → (default : String) → (disabled : Bool) → Dialog → List Step → Dialog
takes trim default disabled d [] = d
takes trim default disabled d (s ∷ rest) =
    takes trim default disabled (take trim default disabled d s) rest

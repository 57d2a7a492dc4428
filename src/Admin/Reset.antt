-- ===== src/Admin/Reset.antt =====
-- web/src/app/(app)/admin/contest/page.tsx: `SCOPES`, `DangerZone` and `ResetDialog`.
use codolympics.Prelude.{
  ℕ, Bool, true, false, not, ◌&&◌, String, Option, none, some, if◌then◌else◌, leb, str_eq,
}

pub data Scope : Type 0 where
  run everything : Scope

unfoldable pub phrase : Scope → String
phrase run = "reset the contest"
phrase everything = "wipe everything"

-- `running`; without a state the phase is `registration`.
unfoldable pub running : Option String → Bool
running none = false
running (some phase) = not (str_eq phase "registration") && not (str_eq phase "ended")

pub record Words : Type 0 where
  pub trim : String → String
  pub lower : String → String
  pub size : String → ℕ

pub record Dialog : Type 0 where
  pub confirm : String
  pub reason : String
  pub busy : Bool
  pub error : Option String

pub record Request : Type 0 where
  pub scope : Scope
  pub reason : String
  pub confirm : String

module _ (js : Words) (s : Scope) where
  unfoldable pub ready : Dialog → Bool
  unfolding phrase
  ready d = str_eq (js.lower (js.trim d.confirm)) (phrase s) && leb 3 (js.size (js.trim d.reason))

  -- `run` up to its request, as its button calls it, and after a refusal.
  unfoldable pub pressed : Dialog → Dialog × Option Request
  unfolding ready
  pressed d =
      if ready d && not d.busy
      then (
        record d { busy = true; error = none },
        some (record { scope = s; reason = js.trim d.reason; confirm = js.trim d.confirm }),
      )
      else (d, none)

  unfoldable pub refused : String → Dialog → Dialog
  refused message d = record d { busy = false; error = some message }

-- ===== src/Sections/Confirming.antt =====
-- web/src/components/admin/phase1-lists.tsx: `COPY`, `ActionDialog` and `useQuestionActions`, which confirm
-- one action on one question. `trim` is a parameter; the ends of the request are events.
use Prim.Native.String.{◌++◌}
use codolympics.Prelude.{
  ℕ, Bool, true, false, not, ◌&&◌, String, List, [], ◌∷◌, Option, none, some, if◌then◌else◌, leb,
  or_else, is_some,
}
use codolympics.Widgets.Dialogs.{size}

pub data Deed : Type 0 where
  publish unpublish void remove : Deed

pub record Pending : Type 0 where
  pub kind : Deed
  pub id : ℕ
  pub title : String

-- `COPY[kind].reason(title)`.
unfoldable pub written : Deed → String → Option String
written publish t = some ("Published “" ++ t ++ "”.")
written unpublish t = some ("Unpublished “" ++ t ++ "”.")
written void t = none
written remove t = some ("Deleted the draft “" ++ t ++ "”.")

unfoldable danger : Deed → Bool
danger void = true
danger remove = true
danger _ = false

pub data Section : Type 0 where
  puzzles hacking : Section

-- What `useQuestionActions` asks of the engine.
pub data Request : Type 0 where
  post : Section → ℕ → (verb : String) → (reason : String) → Request
  delete : Section → ℕ → (reason : String) → Request

unfoldable pub act : Section → Deed → ℕ → String → Request
act s publish id reason = post s id "publish" reason
act s unpublish id reason = post s id "unpublish" reason
act s void id reason = post s id "void" reason
act s remove id reason = delete s id reason

-- `sent` has the latest request first.
pub record Dialog : Type 0 where
  pub pending : Option Pending
  pub reason : String
  pub busy : Bool
  pub error : Option String
  pub sent : List Request

-- A menu's `setPending`; Cancel, or the dialog closed; what is typed; Confirm; the ends of a request.
pub data Event : Type 0 where
  asked : Pending → Event
  closed : Event
  typed : String → Event
  confirmed done : Event
  refused : String → Event

module _ (trim : String → String) (s : Section) where
  -- The button is not disabled and not loading.
  unfoldable pub can_confirm : Dialog → Pending → Bool
  unfolding written size
  can_confirm d p =
      not d.busy
      && (if is_some (written p.kind p.title) then true else leb 3 (size (trim d.reason)))

  unfoldable pub confirm : Dialog → Pending → Dialog
  unfolding written act
  confirm d p = record d {
    busy = true;
    error = none;
    sent = act s p.kind p.id (or_else (written p.kind p.title) (trim d.reason)) ∷ d.sent;
  }

  -- `setPending`, with the effect that follows its change.
  unfoldable pub show : Option Pending → Dialog → Dialog
  show p d = record d { pending = p; reason = ""; error = none }

  unfoldable pub step : Dialog → Event → Dialog
  unfolding can_confirm confirm show
  step d (asked p) = show (some p) d
  step d closed = show none d
  step d (typed t) = record d { reason = t }
  step d confirmed = elim d.pending [
    | none ↦ d
    | some p ↦ if can_confirm d p then confirm d p else d
  ]
  step d done = record (show none d) { busy = false }
  step d (refused why) = record d { error = some why; busy = false }

  unfoldable pub steps : Dialog → List Event → Dialog
  unfolding step
  steps d [] = d
  steps d (e ∷ es) = steps (step d e) es

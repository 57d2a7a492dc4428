-- ===== src/Arena/Autosave.antt =====
-- web/src/components/contest/section-a.tsx: `LiveQuestion`, one question wired to autosave. A timer that
-- is set runs out after 700 ms unless it is cleared; a request that it sends is answered in any order.
-- The answers, `unknown` in the source, are of any type.
use codolympics.Prelude.{
  Bool, true, false, String, List, [], ◌∷◌, ◌++◌, Option, none, some, if◌then◌else◌,
}

pub data SaveStatus : Type 0 where
  idle saving saved failed : SaveStatus

-- The object given to `schedule`, the body of the request.
pub data Change {ℓ} (A : Type ℓ) : Type ℓ where
  answer_to : A → Change A
  explanation_to : String → Change A

pub record Editor {ℓ} (A : Type ℓ) : Type ℓ where
  pub answer : A
  pub explanation : String
  pub status : SaveStatus
  pub format_error : Option String
  pub timer : Option (Change A)
  pub sent : List (Change A)

pub data Event {ℓ} (A : Type ℓ) : Type ℓ where
  on_answer : (v : A) → (ok : Bool) → Event A
  on_explanation : String → Event A
  elapsed : Event A
  accepted : Event A
  rejected : String → Event A

module _ {ℓ} {A : Type ℓ} where
  -- `useState` and `useRef` at the mount: `saved?.answer ?? defaultAnswer(q)`.
  unfoldable pub opened : A → Option A → Option String → Editor A
  opened default saved_answer saved_explanation = record {
    answer = elim saved_answer [ none ↦ default | some a ↦ a ];
    explanation = elim saved_explanation [ none ↦ "" | some e ↦ e ];
    status = idle;
    format_error = none;
    timer = none;
    sent = [];
  }

  -- `schedule`: the change takes the place of one that waits.
  unfoldable pub schedule : Bool → Change A → Editor A → Editor A
  schedule locked next s = if locked then s else record s { status = saving; timer = some next }

  -- The timer runs out: what it holds is sent.
  unfoldable pub fire : Editor A → Editor A
  fire s = elim s.timer [
    | none ↦ s
    | some next ↦ record s { timer = none; sent = s.sent ++ next ∷ [] }
  ]

  -- One event, with the `locked` and the format's hint of the last render.
  unfoldable pub step : Bool → String → Editor A → Event A → Editor A
  unfolding schedule fire
  step locked expected s (on_answer v true) =
      schedule locked (answer_to v) (record s { answer = v; format_error = none })
  step locked expected s (on_answer v false) = record s { answer = v; format_error = some expected }
  step locked expected s (on_explanation e) =
      schedule locked (explanation_to e) (record s { explanation = e })
  step locked expected s elapsed = fire s
  step locked expected s accepted = record s { status = saved; format_error = none }
  step locked expected s (rejected why) = record s { status = failed; format_error = some why }

  unfoldable pub steps : Bool → String → Editor A → List (Event A) → Editor A
  steps locked expected s [] = s
  steps locked expected s (e ∷ rest) = steps locked expected (step locked expected s e) rest

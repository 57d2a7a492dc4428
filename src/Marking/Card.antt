-- ===== src/Marking/Card.antt =====
-- web/src/app/(app)/grade/page.tsx, `AnswerCard`: the marks on the card, the save that waits 700 ms, and
-- what is sent. A save takes the marks of the render that asked for it. `Number` is a parameter.
use codolympics.Prelude.{
  Bool, not, ◌&&◌, String, List, [], ◌∷◌, ◌++◌, Option, none, some, if◌then◌else◌, str_eq,
}
use codolympics.Marking.Queue.{Question, needs_answer, needs_reason}

pub record Marks : Type 0 where
  pub manual : String
  pub explain : String
  pub comment : String
  pub flagged : Bool

pub record Card : Type 0 where
  pub shown : Marks
  pub timer : Option Marks
  pub sent : List Marks

pub data Event : Type 0 where
  wrote_manual wrote_explain wrote_comment : String → Event
  flag elapsed : Event

-- `later(next)`: what waits is replaced.
unfoldable pub later : Marks → Card → Card
later next c = record c { shown = next; timer = some next }

-- `save(next)`.
unfoldable pub save : Marks → Card → Card
save next c = record c { shown = next; sent = c.sent ++ next ∷ [] }

unfoldable pub fire : Card → Card
fire c = elim c.timer [
  | none ↦ c
  | some next ↦ record c { timer = none; sent = c.sent ++ next ∷ [] }
]

unfoldable pub step : Card → Event → Card
unfolding later save fire
step c (wrote_manual v) = later (record (c.shown) { manual = v }) c
step c (wrote_explain v) = later (record (c.shown) { explain = v }) c
step c (wrote_comment v) = later (record (c.shown) { comment = v }) c
step c flag = save (record (c.shown) { flagged = not c.shown.flagged }) c
step c elapsed = fire c

unfoldable pub steps : Card → List Event → Card
unfolding step
steps c [] = c
steps c (e ∷ rest) = steps (step c e) rest

-- The body of the request.
pub record Body (M : Type 0) : Type 0 where
  pub manual_score : Option M
  pub explain_score : Option M
  pub comment : String
  pub flagged : Bool

unfoldable body : {M : Type 0} → (number : String → M) → Question → Marks → Body M
unfolding needs_answer needs_reason
body number q m = record {
  manual_score =
      if needs_answer q && not (str_eq m.manual "") then some (number m.manual) else none;
  explain_score =
      if needs_reason q && not (str_eq m.explain "") then some (number m.explain) else none;
  comment = m.comment;
  flagged = m.flagged;
}

-- ===== src/Rounds/Hacks.antt =====
-- web/src/components/contest/section-b.tsx: `SectionB`, which question and which solution an attempt is
-- made against. `String.prototype.trim` is a parameter of `can_submit`, as whether it leaves anything.
use codolympics.Prelude.{
  ℕ, Bool, false, not, ◌&&◌, ◌||◌, String, List, [], ◌∷◌, Option, none, some, if◌then◌else◌, ◌==◌,
  str_eq, find, keep, any, length,
}

pub record Solution : Type 0 where
  pub id : ℕ
  pub language : String

pub record Question : Type 0 where
  pub id : ℕ
  pub solutions : List Solution

pub record Attempt : Type 0 where
  pub question_id : ℕ
  pub attempt_state : String
  pub hacked : Bool

pub record Data : Type 0 where
  pub is_open : Bool
  pub questions : List Question
  pub attempts : List Attempt

pub record Page : Type 0 where
  pub current_id : Option ℕ
  pub input : String
  pub busy : Bool
  pub finish_open : Bool

-- `xs[0]`.
abbrev pub first {ℓ} : {A : Type ℓ} → List A → Option A
first [] = none
first (x ∷ xs) = some x

-- `a ?? b` of two values that may be missing.
abbrev pub or_first {ℓ} : {A : Type ℓ} → Option A → Option A → Option A
or_first none b = b
or_first (some a) b = some a

abbrev is_id : Option ℕ → ℕ → Bool
is_id none n = false
is_id (some k) n = n == k

-- `data.questions.find((x) => x.id === currentId) ?? data.questions[0]`.
unfoldable pub question : Option ℕ → List Question → Option Question
question current l = or_first (find (λ (x : Question). is_id current x.id) l) (first l)

abbrev is_language : Option String → String → Bool
is_language none l = false
is_language (some p) l = str_eq l p

-- `q.solutions.find((x) => x.language === preferred) ?? q.solutions[0]`.
unfoldable pub solution : Option String → Question → Option Solution
solution preferred q =
    or_first (find (λ (x : Solution). is_language preferred x.language) q.solutions)
      (first q.solutions)

unfoldable attempts_on : Option Question → List Attempt → List Attempt
attempts_on none l = []
attempts_on (some q) l = keep (λ (a : Attempt). a.question_id == q.id) l

unfoldable pub in_flight : List Attempt → Bool
in_flight l = any (λ (a : Attempt). not (str_eq a.attempt_state "done")) l

-- `hackedIds.has(id)`.
unfoldable is_hacked : ℕ → List Attempt → Bool
is_hacked id l = any (λ (a : Attempt). a.hacked && a.question_id == id) l

-- The members of a list without the repeats: `new Set(…)`, of which the source takes the size.
unfoldable distinct : List ℕ → List ℕ
distinct [] = []
distinct (n ∷ rest) =
    let others = distinct rest in if any (λ k. k == n) rest then others else n ∷ others

abbrev ids : List Attempt → List ℕ
ids [] = []
ids (a ∷ rest) = a.question_id ∷ ids rest

unfoldable hacked_count : List Attempt → ℕ
unfolding distinct
hacked_count l = length (distinct (ids (keep (λ (a : Attempt). a.hacked) l)))

unfoldable pub is_locked : Bool → Data → Bool
is_locked finished d = not d.is_open || finished

-- What an attempt is made against, and with which input.
pub record Posted : Type 0 where
  pub question_id : ℕ
  pub solution_id : ℕ
  pub input : String

-- `submit()`: `if (!q || !solution) return`.
unfoldable pub submit : Option String → Data → Page → Option Posted
unfolding question solution
submit preferred d p = elim (question p.current_id d.questions) [
  | none ↦ none
  | some q ↦ elim (solution preferred q) [
    | none ↦ none
    | some s ↦ some (record { question_id = q.id; solution_id = s.id; input = p.input })
  ]
]

-- The button: `loading={busy || inFlight}`, `disabled={locked || !input.trim() || !solution}`. Without a
-- solution `submit` posts nothing.
unfoldable pub can_submit : (String → Bool) → Bool → Data → Page → Bool
unfolding in_flight is_locked
can_submit has_text finished d p =
    not (p.busy || in_flight d.attempts) && not (is_locked finished d || not (has_text p.input))

-- A click on the button: what it posts, if anything.
unfoldable pub clicked : (String → Bool) → Bool → Option String → Data → Page → Option Posted
unfolding submit can_submit
clicked has_text finished preferred d p =
    if can_submit has_text finished d p then submit preferred d p else none

-- A click in the list of questions, and an edit of the input.
unfoldable choose : ℕ → Page → Page
choose id p = record p { current_id = some id; input = "" }

unfoldable typed : Bool → String → Page → Page
typed locked text p = if locked then p else record p { input = text }

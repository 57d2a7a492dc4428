-- ===== src/Marking/Queue.antt =====
-- web/src/app/(app)/grade/page.tsx, `GradePage` and `BulkBlanks`: the state of an answer, the seats, who
-- is listed and on screen, and the zeros for the blank answers. A mark is of any type with its 0; `trim`
-- and `localeCompare` (whether `a` comes no later than `b`) are parameters, and an element of an answer is
-- what `String` makes of it.
use codolympics.Prelude.{
  ℕ, ◌+◌, Bool, true, false, not, ◌&&◌, ◌||◌, String, List, [], ◌∷◌, Option, none, some,
  if◌then◌else◌, ltb, ◌==◌, is_some, keep, find, length, str_eq, sort_by,
}
use Prim.Native.String.{◌++◌ as joined}
use codolympics.Rounds.Hacks.{first, or_first}

pub data Answer : Type 0 where
  missing : Answer
  text : String → Answer
  entries : List String → Answer

pub record Item (M : Type 0) : Type 0 where
  pub participant_id : String
  pub name : String
  pub answer : Answer
  pub explanation : Option String
  pub manual_score : Option M
  pub explain_score : Option M
  pub comment : Option String
  pub flagged : Bool

pub record Question : Type 0 where
  pub id : ℕ
  pub title : String
  pub grading : String
  pub points : ℕ
  pub explain_points : ℕ

pub record Group (M : Type 0) : Type 0 where
  pub question : Question
  pub items : List (Item M)

pub data State : Type 0 where
  flagged blank todo partial done : State

-- `parts.join(separator)`.
unfoldable join : String → List String → String
join separator [] = ""
join separator (p ∷ []) = p
join separator (p ∷ q ∷ rest) = joined p (joined separator (join separator (q ∷ rest)))

unfoldable pub render_answer : Answer → String
unfolding join
render_answer missing = ""
render_answer (text t) = t
render_answer (entries l) = join "\n" l

unfoldable pub needs_answer : Question → Bool
needs_answer q = str_eq q.grading "manual"

unfoldable pub needs_reason : Question → Bool
needs_reason q = ltb 0 q.explain_points

abbrev is_missing : Answer → Bool
is_missing missing = true
is_missing _ = false

abbrev is_empty : (trim : String → String) → Option String → Bool
is_empty trim none = true
is_empty trim (some t) = str_eq (trim t) ""

unfoldable pub is_blank : {M : Type 0} → (trim : String → String) → Question → Item M → Bool
unfolding render_answer needs_answer
is_blank trim q it =
    (not (needs_answer q) || str_eq (trim (render_answer it.answer)) "" || is_missing it.answer)
    && (q.explain_points == 0 || is_empty trim it.explanation)

-- Every mark that the question asks for is there.
unfoldable pub has_marks : {M : Type 0} → Question → Item M → Bool
unfolding needs_answer needs_reason
has_marks q it =
    (not (needs_answer q) || is_some it.manual_score)
    && (not (needs_reason q) || is_some it.explain_score)

unfoldable pub state_of : {M : Type 0} → (trim : String → String) → Question → Item M → State
unfolding has_marks is_blank
state_of trim q it =
    if has_marks q it
    then (if it.flagged then flagged else done)
    else if it.flagged
    then flagged
    else if is_some it.manual_score || is_some it.explain_score
    then partial
    else if is_blank trim q it
    then blank
    else todo

unfoldable pub settled : State → Bool
settled done = true
settled flagged = true
settled _ = false

pub record Row (M : Type 0) : Type 0 where
  pub it : Item M
  pub state : State
  pub seat : ℕ

unfoldable pub numbered :
    {M : Type 0} → (trim : String → String) → Question → ℕ → List (Item M) → List (Row M)
unfolding state_of
numbered trim q seat [] = []
numbered trim q seat (it ∷ rest) =
    record { it = it; state = state_of trim q it; seat = seat } ∷ numbered trim q (seat + 1) rest

unfoldable pub rows_of :
    {M : Type 0}
    → (trim : String → String) → (no_later : String → String → Bool) → Group M
    → List (Row M)
unfolding numbered sort_by
rows_of trim no_later g =
    numbered trim g.question 1
      (sort_by (λ (a b : Item _). no_later a.participant_id b.participant_id) g.items)

pub data Filter : Type 0 where
  to_grade only_flagged all : Filter

abbrev is_flagged : State → Bool
is_flagged flagged = true
is_flagged _ = false

unfoldable pub matches : Filter → State → Bool
unfolding settled
matches all s = true
matches only_flagged s = is_flagged s
matches to_grade s = not (settled s)

-- The body of a request to grade.
pub record Posted (M : Type 0) : Type 0 where
  pub participant_id : String
  pub manual_score : Option M
  pub explain_score : Option M

abbrev is_blank_state : State → Bool
is_blank_state blank = true
is_blank_state _ = false

module _ {M : Type 0} where
  -- "To grade".
  unfoldable pub unmarked : List (Row M) → ℕ
  unfolding settled
  unmarked rows = length (keep (λ (r : Row M). not (settled r.state)) rows)

  unfoldable pub listed : Filter → List (Row M) → List (Row M)
  unfolding matches
  listed filter rows = keep (λ (r : Row M). matches filter r.state) rows

  abbrev is_of : Option String → Row M → Bool
  is_of none r = false
  is_of (some id) r = str_eq r.it.participant_id id

  -- The one on screen: the chosen one, else the first still to do, else the first.
  unfoldable shown : Option String → Filter → List (Row M) → Option (Row M)
  unfolding listed
  shown current filter rows =
      or_first (find (is_of current) rows) (or_first (first (listed filter rows)) (first rows))

  -- The next listed answer after a seat, and the one before it.
  unfoldable pub after : ℕ → List (Row M) → Option (Row M)
  after seat l = find (λ (r : Row M). ltb seat r.seat) l

  unfoldable reversed : List (Row M) → List (Row M) → List (Row M)
  reversed [] acc = acc
  reversed (r ∷ rest) acc = reversed rest (r ∷ acc)

  unfoldable pub before : ℕ → List (Row M) → Option (Row M)
  unfolding reversed
  before seat l = find (λ (r : Row M). ltb r.seat seat) (reversed l [])

  -- `zeroAll()`: the requests for the blank answers, in their order.
  unfoldable pub zero_of : M → Question → Item M → Posted M
  unfolding needs_answer needs_reason
  zero_of zero q it = record {
    participant_id = it.participant_id;
    manual_score = if needs_answer q then some zero else none;
    explain_score = if needs_reason q then some zero else none;
  }

  unfoldable pub zero_all : M → Question → List (Row M) → List (Posted M)
  unfolding zero_of
  zero_all zero q [] = []
  zero_all zero q (r ∷ rest) =
      let later = zero_all zero q rest in
      if is_blank_state r.state then zero_of zero q r.it ∷ later else later

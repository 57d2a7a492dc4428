-- ===== src/Roster/Record.antt =====
-- web/src/app/(app)/admin/participants/[id]/page.tsx: one participant's record, what it loads, and what it
-- says of a time, a score and the way through the contest.
use codolympics.Prelude.{
  ℕ, ◌+◌, ◌/◌, ◌%◌, Bool, true, false, not, ◌&&◌, ◌||◌, String, List, [], ◌∷◌, ◌++◌, Option, none,
  some, if◌then◌else◌, ltb, leb, ◌==◌, any, is_some, str_eq, ℤ, pos, negsuc, neg_part,
}
use codolympics.Roster.Actions.{
  Kind, adjust, password, rename, disqualify, requalify, remove, assign, unlock, UnsoldQuestion,
}
use codolympics.Roster.People.{Question, unsold_of, in_phase2, kind_if, has_any}

-- The page: `d` is of any type here, the record that was read.
pub record Page (D N : Type 0) : Type 0 where
  pub d : Option D
  pub unsold : List (UnsoldQuestion N)
  pub error : Bool

-- A reading of the record with the questions; these are none where they could not be read.
pub data Event (D N : Type 0) : Type 0 where
  read : D → List (Question N) → Event D N
  failed : Event D N

pub data View (D : Type 0) : Type 0 where
  could_not_be_loaded waiting : View D
  shows : D → View D

module _ {D N : Type 0} where
  -- The ends of `load`, whether at first, by Refresh, after an action or on an event of the proctor.
  unfoldable pub step : Page D N → Event D N → Page D N
  unfolding unsold_of
  step p (read d qs) = record p { d = some d; unsold = unsold_of qs }
  step p failed = record p { error = true }

  unfoldable pub steps : Page D N → List (Event D N) → Page D N
  unfolding step
  steps p [] = p
  steps p (e ∷ es) = steps (step p e) es

  unfoldable pub view : Page D N → View D
  view p = if p.error then could_not_be_loaded else elim p.d [ none ↦ waiting | some d ↦ shows d ]

-- The list of actions beside the record.
unfoldable pub actions :
    {N : Type 0}
    → (phase : String) → (owned : ℕ) → (locked disqualified : Bool) → List (UnsoldQuestion N)
    → List Kind
unfolding in_phase2
actions phase owned locked disqualified unsold =
    kind_if locked unlock
    ++ (adjust
        ∷ (kind_if (in_phase2 phase && (owned == 0 && has_any unsold)) assign
            ++ (password
                ∷ rename
                ∷ (if disqualified then requalify else disqualify)
                ∷ kind_if (str_eq phase "registration") remove)))

-- `duration(ms)`, by its parts: `h:mm:ss`, `m:ss`, or a dash.
pub data Duration : Type 0 where
  no_time : Duration
  long : (h m s : ℕ) → Duration
  short : (m s : ℕ) → Duration

-- `Math.max(0, Math.round(ms / 1000))` of a whole number.
unfoldable pub seconds : ℤ → ℕ
seconds (pos n) = (n + 500) / 1000
seconds (negsuc n) = 0

unfoldable pub duration_of : ℕ → Duration
duration_of s =
    if ltb 0 (s / 3600)
    then long (s / 3600) (s % 3600 / 60) (s % 60)
    else short (s % 3600 / 60) (s % 60)

unfoldable pub duration : Option ℤ → Duration
unfolding seconds duration_of
duration none = no_time
duration (some ms) = duration_of (seconds ms)

-- The coins that went out, as a positive number.
unfoldable spent : List ℤ → ℕ
spent [] = 0
spent (delta ∷ rest) = neg_part delta + spent rest

-- `ScoreMark`.
pub data Mark : Type 0 where
  not_answered undecided full part nothing : Mark

unfoldable pub score_mark : (answered pending : Bool) → (awarded total : ℕ) → Mark
score_mark answered pending awarded total =
    if not answered
    then not_answered
    else if pending
    then undecided
    else if leb total awarded
    then full
    else if ltb 0 awarded
    then part
    else nothing

-- `PuzzleRow`, of an answer and what was awarded for it.
unfoldable puzzle_mark : (answered : Bool) → (awarded : Option ℕ) → (points explain : ℕ) → Mark
unfolding score_mark
puzzle_mark answered awarded points explain =
    score_mark answered (answered && not (is_some awarded)) (elim awarded [ none ↦ 0 | some n ↦ n ])
      (points + explain)

-- An attempt of `HackRow`: whether it is done, and whether it broke the code.
pub record Attempt : Type 0 where
  pub is_done : Bool
  pub hacked : Bool

unfoldable hack_mark : List Attempt → (points : ℕ) → Mark
unfolding score_mark
hack_mark attempts points =
    score_mark (has_any attempts) (any (λ (a : Attempt). not a.is_done) attempts)
      (if any (λ (a : Attempt). a.hacked) attempts then points else 0) points

-- `Journey`: what is done of registering, the puzzles, the hacking, the selection and Phase 2.
pub record Passage : Type 0 where
  pub puzzles_finished : Bool
  pub hacking_finished : Bool
  pub answered : List Bool
  pub attempts : List ℕ
  pub advanced : Option Bool

abbrev is_true : Option Bool → Bool
is_true none = false
is_true (some b) = b

unfoldable journey : Passage → List Bool
journey p =
    true
    ∷ (p.puzzles_finished || any (λ (b : Bool). b) p.answered)
    ∷ (p.hacking_finished || any (λ (n : ℕ). ltb 0 n) p.attempts)
    ∷ is_true p.advanced
    ∷ is_true p.advanced
    ∷ []

-- The tab that opens first.
unfoldable opens_phase2 : (phase : String) → Option Bool → Bool
unfolding in_phase2
opens_phase2 phase advanced = in_phase2 phase || is_true advanced

-- ===== src/Roster/People.antt =====
-- web/src/app/(app)/admin/participants/page.tsx: the roster, its figures, and what each row says and offers.
-- `has` is `a.toLowerCase().includes(b.toLowerCase())`.
use codolympics.Prelude.{
  ℕ, ◌+◌, Bool, true, false, not, ◌&&◌, ◌||◌, String, List, [], ◌∷◌, ◌++◌, if◌then◌else◌, ltb, ◌==◌,
  length, keep, includes, or_else, str_eq,
}
use codolympics.Roster.Actions.{
  Participant, Kind, adjust, password, rename, disqualify, requalify, remove, assign, unlock,
  UnsoldQuestion,
}

-- `["auction1", "coding1", "auction2", "final"].includes(phase)`.
unfoldable pub in_phase2 : String → Bool
in_phase2 phase = includes ("auction1" ∷ "coding1" ∷ "auction2" ∷ "final" ∷ []) phase

-- A question as `/api/admin/questions` returns it.
pub record Question (N : Type 0) : Type 0 where
  pub id : String
  pub title : String
  pub base_price : N
  pub status : String

unfoldable pub unsold_of : {N : Type 0} → List (Question N) → List (UnsoldQuestion N)
unsold_of [] = []
unsold_of (q ∷ rest) =
    let others = unsold_of rest in
    if str_eq q.status "unsold"
    then record { id = q.id; title = q.title; base_price = q.base_price } ∷ others
    else others

unfoldable shown : (has : String → String → Bool) → String → List Participant → List Participant
shown has filter all =
    keep
      (λ (r : Participant).
        str_eq filter "" || (has r.name filter || has (or_else r.username "") filter))
      all

-- Those who have money and nothing to solve.
unfoldable pub is_idle : Participant → Bool
is_idle r = r.owned == 0 && not r.disqualified

unfoldable pub own_nothing : String → List Participant → ℕ
unfolding in_phase2 is_idle
own_nothing phase all = if in_phase2 phase then length (keep is_idle all) else 0

unfoldable locked_out : List Participant → ℕ
locked_out all = length (keep (λ (r : Participant). r.proctor_locked) all)

unfoldable warned : List Participant → ℕ
warned all = length (keep (λ (r : Participant). ltb 0 r.proctor_alerts) all)

unfoldable money : List Participant → ℕ
money [] = 0
money (r ∷ rest) = r.balance + money rest

unfoldable questions_owned : List Participant → ℕ
questions_owned [] = 0
questions_owned (r ∷ rest) = r.owned + questions_owned rest

pub data Status : Type 0 where
  is_disqualified is_locked_out : Status
  left_the_page : ℕ → Status
  owns_nothing active : Status

unfoldable pub status : (phase : String) → Participant → Status
unfolding in_phase2
status phase p =
    if p.disqualified
    then is_disqualified
    else if p.proctor_locked
    then is_locked_out
    else if ltb 0 p.proctor_alerts
    then left_the_page p.proctor_alerts
    else if in_phase2 phase && p.owned == 0
    then owns_nothing
    else active

abbrev pub kind_if : Bool → Kind → List Kind
kind_if b k = if b then k ∷ [] else []

abbrev pub has_any : {A : Type 0} → List A → Bool
has_any [] = false
has_any (x ∷ rest) = true

-- The actions in the menu of a row.
unfoldable pub menu :
    {N : Type 0} → (phase : String) → List (UnsoldQuestion N) → Participant → List Kind
unfolding in_phase2
menu phase unsold p =
    (adjust ∷ password ∷ rename ∷ [])
    ++ (kind_if (in_phase2 phase && (p.owned == 0 && has_any unsold)) assign
        ++ (kind_if p.proctor_locked unlock
            ++ ((if p.disqualified then requalify else disqualify)
                ∷ kind_if (str_eq phase "registration") remove)))

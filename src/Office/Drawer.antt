-- ===== src/Office/Drawer.antt =====
-- web/src/app/(app)/admin/submissions/page.tsx: the list of submissions and the drawer that reads one in
-- full. The submission and its detail are of any types here; a submission has its number.
use codolympics.Prelude.{
  ℕ, Bool, false, not, ◌&&◌, ◌||◌, String, List, [], ◌∷◌, Option, none, some, keep, str_eq, length,
}

-- `open`, by its number, and `detail`.
pub record Page (D : Type 0) : Type 0 where
  pub opened : Option ℕ
  pub detail : Option D

-- "Inspect", the drawer closed, and the answer to a request for a submission's detail, which each
-- "Inspect" sends.
pub data Event (D : Type 0) : Type 0 where
  inspected : ℕ → Event D
  closed : Event D
  answered : ℕ → D → Event D

unfoldable pub step : {D : Type 0} → Page D → Event D → Page D
step p (inspected n) = record p { opened = some n; detail = none }
step p closed = record p { opened = none; detail = none }
step p (answered n d) = record p { detail = some d }

unfoldable pub steps : {D : Type 0} → Page D → List (Event D) → Page D
unfolding step
steps p [] = p
steps p (e ∷ es) = steps (step p e) es

pub record Submission : Type 0 where
  pub id : ℕ
  pub name : String
  pub question_id : String
  pub verdict : Option String

abbrev is_internal : Submission → Bool
is_internal s = elim s.verdict [ none ↦ false | some v ↦ str_eq v "IE" ]

module _ (has : String → String → Bool) where
  unfoldable shown : String → (only_internal : Bool) → List Submission → List Submission
  shown filter only_internal all =
      keep
        (λ (r : Submission).
          (str_eq filter "" || (has r.name filter || has r.question_id filter))
          && (not only_internal || is_internal r))
        all

unfoldable internal_errors : List Submission → ℕ
internal_errors all = length (keep is_internal all)

-- ===== src/Authoring/Hack.antt =====
-- web/src/components/admin/hack-builder.tsx: the form of one Section B question, its issues, the copies
-- of the flawed solution, and what each of them still has to prove. `fromHack` renames a stored
-- question's fields, so a stored question is the form that it opens as, with its `published` and `ready`.
use codolympics.Prelude.{
  ℕ, ◌-◌, min, Bool, false, not, ◌&&◌, ◌||◌, String, List, [], ◌∷◌, ◌++◌, Option, none, some,
  if◌then◌else◌, ltb, ◌==◌, length, get_elem?, set, keep, any, str_eq, includes,
}
use Prim.Native.String.{◌++◌ as joined}
use codolympics.Widgets.Dialogs.{size}
use codolympics.Widgets.Reorder.{remove_at}
use codolympics.Authoring.Platform.{Platform, reported, set_of}
use codolympics.Authoring.Issues.{not_whole_from, is_blank}

-- `id` names a saved copy.
pub record Copy : Type 0 where
  pub id : Option ℕ
  pub language : String
  pub source : String

pub record Hack (F : Type 0) : Type 0 where
  pub title : String
  pub problem_id : String
  pub hack_points : F
  pub fail_penalty : F
  pub order_index : F
  pub statement_md : String
  pub constraints_md : String
  pub solutions : List Copy

pub record JudgeProblem : Type 0 where
  pub problem_id : String
  pub validated : Bool
  pub has_reference : Bool
  pub hack_only : Bool
  pub is_published : Bool

pub record Payload (F : Type 0) : Type 0 where
  pub form : Hack F
  pub reason : String

abbrev pub languages_of : List Copy → List String
languages_of [] = []
languages_of (x ∷ rest) = x.language ∷ languages_of rest

-- `problems && !problems.some((p) => p.problem_id === id)`.
unfoldable is_gone : Option (List JudgeProblem) → String → Bool
is_gone none id = false
is_gone (some l) id = not (any (λ (p : JudgeProblem). str_eq p.problem_id id) l)

module _ {F : Type 0} (js : Platform F) where
  unfoldable pub empty : Hack F
  empty = record {
    title = "";
    problem_id = "";
    hack_points = js.literal 20;
    fail_penalty = js.literal 0;
    order_index = js.literal 1;
    statement_md = "";
    constraints_md = "";
    solutions = record { id = none; language = "cpp"; source = "" } ∷ [];
  }

  unfoldable pub basics_issues : Hack F → Option (List JudgeProblem) → List String
  unfolding reported not_whole_from is_blank is_gone
  basics_issues f problems = reported (
      (is_blank js f.title, "Give the question a title.")
      ∷ (str_eq f.problem_id "", "Choose the judge problem that holds the reference solution.")
      ∷ (
        not (str_eq f.problem_id "") && is_gone problems f.problem_id,
        "That judge problem no longer exists.",
      )
      ∷ (not_whole_from js 0 f.hack_points, "Points must be a whole number, zero or more.")
      ∷ (not_whole_from js 0 f.fail_penalty, "Penalty must be a whole number, zero or more.")
      ∷ [])

  unfoldable pub statement_issues : Hack F → List String
  unfolding reported is_blank
  statement_issues f = reported (
      (
        is_blank js f.statement_md,
        "Write the problem statement. Participants need to know what the solution is supposed to do.",
      )
      ∷ [])

  -- The two messages of a copy name its language.
  unfoldable copies_tests : List Copy → List (Bool × String)
  unfolding is_blank size
  copies_tests [] = []
  copies_tests (x ∷ rest) =
      (is_blank js x.source, joined "Paste the flawed " (joined x.language " solution."))
      ∷ (
        ltb 262144 (size x.source),
        joined "The " (joined x.language " solution is larger than 256 KB."),
      )
      ∷ copies_tests rest

  unfoldable pub source_issues : Hack F → List String
  unfolding reported copies_tests set_of
  source_issues f = reported (
      (length f.solutions == 0, "Add the flawed solution in at least one language.")
        ∷ copies_tests f.solutions
      ++ (
        not (
            length (set_of str_eq (languages_of f.solutions)) == length (languages_of f.solutions)),
        "One solution per language.",
      )
        ∷ [])

  unfoldable pub all_issues : Option (List JudgeProblem) → Hack F → List String
  all_issues problems f = basics_issues f problems ++ statement_issues f ++ source_issues f

  -- What `save()` sends.
  unfoldable pub payload : (existing : Bool) → Hack F → Payload F
  payload existing f = record {
    form = record f { title = js.trim f.title };
    reason =
        joined (if existing then "Edited" else "Created")
          (joined " the hacking question “" (joined (js.trim f.title) "”."));
  }

-- `SolutionsEditor`: the tab that is open, and the copies as edited.
pub record Editor : Type 0 where
  pub open_tab : ℕ
  pub copies : List Copy

unfoldable pub current_tab : Editor → ℕ
current_tab e = min e.open_tab (length e.copies - 1)

unfoldable pub current_copy : Editor → Option Copy
unfolding current_tab
current_copy e = get_elem? e.copies (current_tab e)

-- The languages that no copy is in.
unfoldable pub spare : List String → List Copy → List String
spare languages copies = keep (λ l. not (includes (languages_of copies) l)) languages

pub data Change : Type 0 where
  selected : ℕ → Change
  added removed : Change
  in_language typed : String → Change

abbrev pub with_source : String → Copy → Copy
with_source text c = record c { source = text }

abbrev pub with_language : String → Copy → Copy
with_language l c = record c { language = l }

abbrev pub added_copy : String → Copy
added_copy l = record { id = none; language = l; source = "" }

unfoldable pub change : List String → Editor → Change → Editor
unfolding spare current_tab current_copy remove_at
change languages e (selected i) = record e { open_tab = i }
change languages e added = elim (spare languages e.copies) [
  | [] ↦ e
  | l ∷ rest ↦ record { open_tab = length e.copies; copies = e.copies ++ added_copy l ∷ [] }
]
change languages e removed =
    if ltb 1 (length e.copies)
    then record { open_tab = e.open_tab - 1; copies = remove_at (current_tab e) e.copies }
    else e
change languages e (in_language l) = elim (current_copy e) [
  | none ↦ e
  | some c ↦
      if str_eq l c.language || not (includes (languages_of e.copies) l)
      then record e { copies = set e.copies (current_tab e) (with_language l c) }
      else e
]
change languages e (typed text) = elim (current_copy e) [
  | none ↦ e
  | some c ↦ record e { copies = set e.copies (current_tab e) (with_source text c) }
]

unfoldable pub changes : List String → Editor → List Change → Editor
unfolding change
changes languages e [] = e
changes languages e (c ∷ rest) = changes languages (change languages e c) rest

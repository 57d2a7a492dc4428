-- ===== src/Authoring/Issues.antt =====
-- web/src/components/admin/puzzle-builder.tsx: what stands in the way of saving, and what a participant
-- will be shown.
use codolympics.Prelude.{
  ℕ, Bool, true, not, ◌&&◌, ◌||◌, String, List, [], ◌∷◌, ◌++◌, Option, none, some, ltb, leb, ◌==◌,
  length, keep, str_eq,
}
use codolympics.Authoring.Platform.{Platform, clean, reported, set_of}
use codolympics.Authoring.Puzzle.{
  Form, is_single, is_multi, is_fill, is_numeric, is_sequence, is_set, is_long, is_mcq, is_auto,
  is_validator, is_manual,
}

-- `f.key_option === null || f.key_option >= n`.
unfoldable pub out_of_range : Option ℕ → ℕ → Bool
out_of_range none n = true
out_of_range (some i) n = leb n i

module _ {F : Type 0} (js : Platform F) where
  -- `!Number.isInteger(x) || x < n`.
  unfoldable pub not_whole_from : ℕ → F → Bool
  not_whole_from n x = not (js.is_integer x) || js.below x (js.literal n)

  unfoldable pub is_blank : String → Bool
  is_blank s = str_eq (js.trim s) ""

  abbrev pub basics_tests : Form F → List (Bool × String)
  basics_tests f =
      (is_blank f.title, "Give the puzzle a title.")
      ∷ (not_whole_from 0 f.points, "Points must be a whole number, zero or more.")
      ∷ (
        not_whole_from 0 f.explain_points,
        "Reasoning points must be a whole number, zero or more.",
      )
      ∷ (not_whole_from 0 f.order_index, "Order must be a whole number.")
      ∷ []

  unfoldable pub basics_issues : Form F → List String
  unfolding reported not_whole_from is_blank
  basics_issues f = reported (basics_tests f)

  abbrev pub content_tests : Form F → List (Bool × String)
  content_tests f =
      let options = clean js.trim f.options in
      (is_blank f.body_md, "Write the question.")
      ∷ (is_mcq f.kind && ltb (length options) 2, "Give at least two options.")
      ∷ (
        is_mcq f.kind && not (length (set_of str_eq options) == length options),
        "Two options are identical.",
      )
      ∷ (
        is_sequence f.kind && ltb (length (clean js.trim f.items)) 2,
        "Give at least two items to order.",
      )
      ∷ (
        is_numeric f.kind
            && (str_eq f.tolerance ""
                || js.is_nan (js.parse f.tolerance)
                || js.below (js.parse f.tolerance) (js.literal 0)),
        "Tolerance must be a number, zero or more.",
      )
      ∷ (is_set f.kind && not_whole_from 1 f.max_entries, "Maximum entries must be at least 1.")
      ∷ (
        not (is_blank f.format_regex) && not (js.is_pattern f.format_regex),
        "The format pattern is not a valid regular expression.",
      )
      ∷ (
        not (is_blank f.format_regex) && is_blank f.format_hint,
        "Add a format hint. It is what the participant is told when an entry is rejected.",
      )
      ∷ []

  unfoldable pub content_issues : Form F → List String
  unfolding reported not_whole_from is_blank clean set_of is_mcq is_sequence is_numeric is_set
  content_issues f = reported (content_tests f)

  abbrev pub grading_tests : Form F → List (Bool × String)
  grading_tests f =
      let options = clean js.trim f.options in
      let auto = is_auto f.grading in
      (
        auto && is_long f.kind,
        "A written answer cannot be graded automatically. Choose an evaluator.",
      )
      ∷ (
        auto && is_single f.kind && out_of_range f.key_option (length options),
        "Mark the correct option.",
      )
      ∷ (
        auto && is_multi f.kind && length (keep (λ i. ltb i (length options)) f.key_options) == 0,
        "Mark at least one correct option.",
      )
      ∷ (
        auto && is_fill f.kind && length (clean js.trim f.key_accepted) == 0,
        "Give at least one accepted answer.",
      )
      ∷ (
        auto && is_numeric f.kind && (is_blank f.key_value || js.is_nan (js.parse f.key_value)),
        "Give the correct number.",
      )
      ∷ (
        auto
            && is_sequence f.kind
            && (not (length f.key_order == length (clean js.trim f.items))
                || not (length (set_of ◌==◌ f.key_order) == length f.key_order)),
        "Set the correct order.",
      )
      ∷ (
        auto && is_set f.kind && length (clean js.trim f.key_members) == 0,
        "List the correct entries.",
      )
      ∷ (
        is_validator f.grading && not (js.defines_check f.validator_py),
        "The validator must define check(entry).",
      )
      ∷ (
        is_validator f.grading && not_whole_from 1 f.points_per_entry,
        "Points per entry must be at least 1.",
      )
      ∷ (
        is_manual f.grading && is_blank f.model_answer,
        "Record a model answer. The evaluator grades against it, and the self-test needs it.",
      )
      ∷ []

  unfoldable pub grading_issues : Form F → List String
  unfolding reported not_whole_from is_blank clean set_of out_of_range is_auto is_validator
      is_manual is_long is_single is_multi is_fill is_numeric is_sequence is_set
  grading_issues f = reported (grading_tests f)

  unfoldable pub all_issues : Form F → List String
  all_issues f = basics_issues f ++ content_issues f ++ grading_issues f

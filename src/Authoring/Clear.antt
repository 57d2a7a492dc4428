-- ===== src/Authoring/Clear.antt =====
-- puzzle-builder.tsx: where no issue is listed, every test fails.
use codolympics.Prelude.{◌≡◌, refl, Bool, false, String, List, [], ◌∷◌, ◌++◌, All}
use codolympics.Authoring.Platform.{Platform, reported-nil}
use codolympics.Authoring.Puzzle.{Form}
use codolympics.Authoring.Issues.{
  all_issues, basics_issues, content_issues, grading_issues, basics_tests, content_tests,
  grading_tests,
}

append-nil_both : (xs ys : List String) → xs ++ ys ≡ [] → (xs ≡ []) × (ys ≡ [])
append-nil_both [] ys h = (refl, h)
append-nil_both (x ∷ xs) ys h = absurd cc

abbrev pub Fails : Bool × String → Type 0
Fails t = t.0 ≡ false

module _ {F : Type 0} (js : Platform F) (f : Form F) where
  none_listed :
      all_issues js f ≡ []
      → (basics_issues js f ≡ []) × (content_issues js f ≡ []) × (grading_issues js f ≡ [])
  unfolding all_issues
  none_listed h =
      let (r, g) =
        append-nil_both (basics_issues js f ++ content_issues js f) (grading_issues js f) h in
      let (b, c) = append-nil_both (basics_issues js f) (content_issues js f) r in (b, c, g)

  basics_issues-All : basics_issues js f ≡ [] → All Fails (basics_tests js f)
  unfolding basics_issues
  basics_issues-All h = reported-nil (basics_tests js f) h

  content_issues-All : content_issues js f ≡ [] → All Fails (content_tests js f)
  unfolding content_issues
  content_issues-All h = reported-nil (content_tests js f) h

  grading_issues-All : grading_issues js f ≡ [] → All Fails (grading_tests js f)
  unfolding grading_issues
  grading_issues-All h = reported-nil (grading_tests js f) h

  pub all_issues-All :
      all_issues js f ≡ []
      → All Fails (basics_tests js f)
        × All Fails (content_tests js f)
        × All Fails (grading_tests js f)
  all_issues-All h =
      let (b, c, g) = none_listed h in
      (basics_issues-All b, content_issues-All c, grading_issues-All g)

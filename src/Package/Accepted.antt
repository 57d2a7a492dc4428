-- ===== src/Package/Accepted.antt =====
-- package-inspect.ts: what a package has in which nothing is found wrong.
use codolympics.Prelude.{
  ◌≢◌, String, In, any, or_else, str_eq, Bool-cases, ℕ, ◌<◌, ◌≡◌, refl, sym, ◌∙◌, subst, Bool, true,
  false, not, ◌&&◌, List, [], ◌∷◌, Option, none, some, is_some, length, All, ◌⊎◌, inl, inr, arith,
  ◌==◌,
}
use codolympics.Authoring.Platform.{reported, reported-nil}
use codolympics.Prelude.Lists.{here, there}
use text.Mathlib.TextEquality.{eq_iff}
use codolympics.Package.Paths.{same_name-eq}
use codolympics.Package.Inspect.{
  get, Reference, TestFile, reference_file, same_name, Name, ProblemJson, Issue, issue_tests,
  inspect, raw_names, files_of, tests_of, problem_of, has_file, parsed_of, Parsed, not_json,
  empty_value, read, is_bad, of_problem, is_reference_missing, is_checked, Host,
}

some-is {ℓ} : {A : Type ℓ} {x y : A} → some x ≡ some y → x ≡ y
some-is e = cc

module _ {B : Type 0} (host : Host B) where
  -- problem.json is there, and parsed as a value.
  abbrev pub IsParsed : List (Name × B) → Parsed → Type 0
  IsParsed entries v =
      (b : B) × (get host entries ("problem.json" ∷ []) ≡ some b) × (host.parse (host.decode b) ≡ v)

  -- A package with its problem.json read, and with what that asks for.
  abbrev pub IsAccepted : List (Name × B) → ProblemJson → Type 0
  IsAccepted entries j =
      let files = files_of host (raw_names entries) in
      IsParsed entries (read j)
      × ((j.compare ≢ some "checker") ⊎ In ("checker.py" ∷ []) files)
      × (((j.hack_only ≡ true) × (r : Reference) × (j.reference ≡ some r))
          ⊎ ((j.hack_only ≡ false) × (t : TestFile) × In t (tests_of host files)))
      × ((reference_file j ≡ none)
          ⊎ ((language : String) × (file : String) × (reference_file j ≡ some (language, file))
              × In (host.split file) files))

  parsed-IsParsed :
      (entries : List (Name × B)) (v : Parsed)
      → parsed_of host entries ≡ some v
      → IsParsed entries v
  unfolding parsed_of
  parsed-IsParsed entries v e = by_bytes (get host entries ("problem.json" ∷ [])) e
    where
      by_bytes :
          (o : Option B)
          → elim o [ none ↦ none | some b ↦ some (host.parse (host.decode b)) ] ≡ some v
          → (b : B) × (o ≡ some b) × (host.parse (host.decode b) ≡ v)
      by_bytes none q = absurd cc
      by_bytes (some b) q = (b, refl, some-is q)

  any-In :
      {A : Type 0} (p : A → Bool) (l : List A) → any p l ≡ true → (x : A) × In x l × (p x ≡ true)
  any-In p [] h = absurd cc
  any-In p (x ∷ l) h = elim (Bool-cases (p x)) [
    | inl t ↦ (x, here refl, t)
    | inr f ↦ let (y, m, t) = any-In p l (ground (arith, f, h)) in (y, there m, t)
  ]

  has_file-In : (files : List Name) (r : Name) → has_file files r ≡ true → In r files
  unfolding has_file
  has_file-In files r h =
      let (n, m, t) = any-In (λ n. same_name n r) files h in
      subst (λ k. In k files) (same_name-eq n r t) m

  unchecked : (j : ProblemJson) → is_checked host j ≡ false → j.compare ≢ some "checker"
  unchecked j f e = absurd (by_compare j.compare e f)
    where
      by_compare :
          (o : Option String) → o ≡ some "checker" → str_eq (or_else o "") "checker" ≡ false → ⊥
      by_compare none e f = absurd cc
      by_compare (some c) e f = ground (arith, eq_iff c "checker", some-is e)

  given : {A : Type 0} (o : Option A) → is_some o ≡ true → (x : A) × (o ≡ some x)
  given none h = absurd cc
  given (some x) h = (x, refl)

  first_of : {A : Type 0} (l : List A) → (length l == 0) ≡ false → (x : A) × In x l
  first_of [] h = absurd cc
  first_of (x ∷ l) h = (x, here refl)

  reference_there :
      (files : List Name) (j : ProblemJson)
      → is_reference_missing host files j ≡ false
      → (reference_file j ≡ none)
        ⊎ ((language : String) × (file : String) × (reference_file j ≡ some (language, file))
            × In (host.split file) files)
  reference_there files j h = by_file (reference_file j) h
    where
      by_file :
          (o : Option (String × String))
          → elim o [ none ↦ false | some (l, f) ↦ not (has_file files (host.split f)) ] ≡ false
          → (o ≡ none)
            ⊎ ((language : String) × (file : String) × (o ≡ some (language, file))
                × In (host.split file) files)
      by_file none q = inl refl
      by_file (some (l, f)) q =
          inr (l, f, refl, has_file-In files (host.split f) (ground (arith, q)))

  checker_case : (a b : Bool) → (a && not b) ≡ false → (a ≡ false) ⊎ (b ≡ true)
  checker_case true b h = inr (ground (arith, h))
  checker_case false b h = inl refl

  hack_case :
      (a r t : Bool)
      → (a && not r) ≡ false
      → (not a && t) ≡ false
      → ((a ≡ true) × (r ≡ true)) ⊎ ((a ≡ false) × (t ≡ false))
  hack_case true r t h k = inl (refl, ground (arith, h))
  hack_case false r t h k = inr (refl, k)

  inspect-issues :
      (entries : List (Name × B)) (n : ℕ)
      → (inspect host (some entries) n).issues ≡ reported (issue_tests host entries)
  unfolding inspect
  inspect-issues entries n = refl

  inspect-problem :
      (entries : List (Name × B)) (n : ℕ)
      → (inspect host (some entries) n).problem ≡ problem_of host entries
  unfolding inspect
  inspect-problem entries n = refl

  problem_of-read :
      (entries : List (Name × B)) (j : ProblemJson)
      → parsed_of host entries ≡ some (read j)
      → problem_of host entries ≡ some j
  unfolding problem_of
  problem_of-read entries j e = rw e refl

  module _ (entries : List (Name × B)) where
    at :
        (j : ProblemJson)
        → problem_of host entries ≡ some j
        → (p : ProblemJson → Bool) → of_problem (problem_of host entries) p ≡ false
        → p j ≡ false
    at j e p h = subst (λ o. of_problem o p ≡ false) e h

    read-IsAccepted :
        (j : ProblemJson)
        → parsed_of host entries ≡ some (read j)
        → All (λ (t : Bool × Issue). t.0 ≡ false) (issue_tests host entries)
        → IsAccepted entries j
    read-IsAccepted j parsed (h0, (h1, (h2, (h3, (h4, (h5, (h6, t))))))) =
        let e = problem_of-read entries j parsed in
        let files = files_of host (raw_names entries) in
        let checker =
          checker_case _ _
            (at j e (λ j. is_checked host j && not (has_file files ("checker.py" ∷ []))) h3) in
        let asked =
          hack_case _ _ _
            (at j e (λ (j : ProblemJson). j.hack_only && not (is_some j.reference)) h4)
            (at j e (λ (j : ProblemJson). not j.hack_only && length (tests_of host files) == 0)
              h5) in
        (
          parsed-IsParsed entries (read j) parsed,
          elim checker [
            | inl f ↦ inl (unchecked j f)
            | inr m ↦ inr (has_file-In files ("checker.py" ∷ []) m)
          ],
          elim asked [
            | inl (k, r) ↦ let (x, q) = given j.reference r in inl (k, x, q)
            | inr (k, t) ↦ let (x, m) = first_of (tests_of host files) t in inr (k, x, m)
          ],
          reference_there files j (at j e (is_reference_missing host files) h6),
        )

    issue_tests-IsAccepted :
        All (λ (t : Bool × Issue). t.0 ≡ false) (issue_tests host entries)
        → IsParsed entries empty_value ⊎ ((j : ProblemJson) × IsAccepted entries j)
    issue_tests-IsAccepted h = by_parsed (parsed_of host entries) refl h.1.0 h.1.1.0
      where
        by_parsed :
            (o : Option Parsed)
            → parsed_of host entries ≡ o
            → not (is_some o) ≡ false
            → is_bad host o ≡ false
            → IsParsed entries empty_value ⊎ ((j : ProblemJson) × IsAccepted entries j)
        by_parsed none e a b = absurd cc
        by_parsed (some not_json) e a b = absurd cc
        by_parsed (some empty_value) e a b = inl (parsed-IsParsed entries empty_value e)
        by_parsed (some (read j)) e a b = inr (j, read-IsAccepted j e h)

  no_zip : (n : ℕ) → (inspect host none n).issues ≡ [] → ⊥
  unfolding inspect
  no_zip n h = absurd cc

  -- A package in which no issue is found is a zip with a problem.json that is JSON. Either that is nothing
  -- but `null`, `false`, `0` or an empty text, of which the page asks no more; or the package has checker.py
  -- where it is to be judged by a checker, the reference file where one is named, and a test, or for a
  -- hacking problem a reference.
  pub inspect-IsAccepted :
      (unzipped : Option (List (Name × B))) (n : ℕ)
      → (inspect host unzipped n).issues ≡ []
      → (entries : List (Name × B)) × (unzipped ≡ some entries)
        × (IsParsed entries empty_value ⊎ ((j : ProblemJson) × IsAccepted entries j))
  inspect-IsAccepted none n h = absurd (no_zip n h)
  inspect-IsAccepted (some entries) n h = (
    entries,
    refl,
    issue_tests-IsAccepted entries
        (reported-nil (issue_tests host entries) (sym (inspect-issues entries n) ∙ h)),
  )

  files-nonempty : (n : ℕ) (empty : Bool) → empty ≡ (n == 0) → 0 < n → empty ≡ false
  files-nonempty n empty e h = ground arith

  -- So a package that holds a file and such a problem.json is let through whatever else it lacks.
  pub empty_problem_unchecked :
      (entries : List (Name × B)) (n : ℕ)
      → 0 < length (raw_names entries)
      → parsed_of host entries ≡ some empty_value
      → (inspect host (some entries) n).issues ≡ []
  unfolding inspect reported problem_of
  empty_problem_unchecked entries n h e =
      rw (e, files-nonempty (length (raw_names entries)) _ refl h) refl

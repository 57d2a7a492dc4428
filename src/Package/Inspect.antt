-- ===== src/Package/Inspect.antt =====
-- web/src/lib/package-inspect.ts: `inspectPackage`. A name is the list of its parts between slashes;
-- an issue or a warning is what its text is about. `unzipSync`, the decoder with `JSON.parse`, the orders
-- of `sort` and `localeCompare`, and what the pattern of a test's name leaves as its stem are parameters.
use codolympics.Prelude.{
  ℕ, ◌-◌, Bool, true, false, not, ◌&&◌, ◌||◌, String, List, [], ◌∷◌, map, Option, none, some,
  if◌then◌else◌, ltb, ◌==◌, length, take, keep, find, any, every, is_some, or_else, sort_by, str_eq,
}
use Prim.Native.String.{◌++◌ as joined}
use text.Mathlib.Text.{starts_with, find?}
use codolympics.Widgets.Dialogs.{size}
use codolympics.Rounds.Hacks.{or_first}
use mathlib.Core.Option.{map as map_option}
use codolympics.Authoring.Platform.{reported, set_of}

abbrev pub Name : Type 0
Name = List String

pub record Reference : Type 0 where
  pub language : Option String
  pub file : Option String

-- The two flags say whether a limit is a number.
pub record ProblemJson : Type 0 where
  pub time_limit : Bool
  pub memory_limit : Bool
  pub compare : Option String
  pub hack_only : Bool
  pub reference : Option Reference

-- What a text is parsed as: nothing, where `JSON.parse` throws; a value that JavaScript takes for false
-- (`null`, `false`, `0` or an empty text), which has no properties; or any other, with the properties that
-- are read of it.
pub data Parsed : Type 0 where
  not_json empty_value : Parsed
  read : ProblemJson → Parsed

pub data Issue : Type 0 where
  not_a_zip empty_zip no_problem_json bad_json no_checker no_reference no_tests : Issue
  reference_missing : Issue

pub data Warning : Type 0 where
  unanswered : (count : ℕ) → (first : List String) → (more : Bool) → Warning
  not_padded no_time_limit no_memory_limit no_validator : Warning

pub record TestFile : Type 0 where
  pub name : String
  pub has_answer : Bool

pub data Clipped : Type 0 where
  whole : String → Clipped
  clipped : String → (more : ℕ) → Clipped

pub record Inspection : Type 0 where
  pub files : List Name
  pub stripped_folder : Option String
  pub problem : Option ProblemJson
  pub tests : List TestFile
  pub has_checker : Bool
  pub has_validator : Bool
  pub reference : Option (String × Bool)
  pub samples : List (Clipped × Option Clipped)
  pub issues : List Issue
  pub warnings : List Warning

abbrev pub top : Name → String
top [] = ""
top (p ∷ rest) = p

abbrev last_part : Name → String
last_part [] = ""
last_part (p ∷ []) = p
last_part (p ∷ q ∷ rest) = last_part (q ∷ rest)

unfoldable pub same_name : Name → Name → Bool
same_name [] [] = true
same_name (p ∷ m) (q ∷ n) = let rest = same_name m n in str_eq p q && rest
same_name _ _ = false

-- A file that is neither a folder, nor from "__MACOSX", nor hidden.
unfoldable pub is_file : Name → Bool
is_file n =
    not (str_eq (last_part n) "")
    && not (any (λ p. is_some (find? p "__MACOSX")) n)
    && not (starts_with (last_part n) ".")

abbrev pub has_folder : Name → Bool
has_folder n = ltb 1 (length n)

-- The single top-level folder that every file is in.
unfoldable pub strip_of : List Name → Option String
unfolding set_of
strip_of [] = none
strip_of (n ∷ rest) =
    if length (set_of str_eq (map top (n ∷ rest))) == 1 && every has_folder (n ∷ rest)
    then some (top n)
    else none

abbrev pub without : String → Name → Name
without folder [] = []
without folder (p ∷ rest) = if str_eq p folder && not (length rest == 0) then rest else p ∷ rest

unfoldable pub rel : Option String → Name → Name
rel none n = n
rel (some folder) n = without folder n

-- The name that `get(r)` finds among the files.
unfoldable pub get_name : List Name → Name → Option Name
unfolding rel strip_of same_name
get_name raw r = find (λ n. same_name (rel (strip_of raw) n) r) raw

unfoldable pub has_file : List Name → Name → Bool
unfolding same_name
has_file files r = any (λ n. same_name n r) files

-- `problem && p(problem)`.
abbrev pub of_problem : Option ProblemJson → (ProblemJson → Bool) → Bool
of_problem none p = false
of_problem (some j) p = p j

-- `problem?.reference?.file`, where it is not empty.
unfoldable pub reference_file : ProblemJson → Option (String × String)
reference_file j = elim j.reference [
  | none ↦ none
  | some r ↦ elim r.file [
    | none ↦ none
    | some f ↦ if str_eq f "" then none else some (or_else r.language "?", f)
  ]
]

unfoldable pub clip : (slice : String → String) → String → Clipped
unfolding size
clip slice s = if ltb 4000 (size s) then clipped (slice s) (size s - 4000) else whole s

-- The parameters; `stem` is that of `name.in`.
pub record Host (B : Type 0) : Type 0 where
  pub decode : B → String
  pub parse : String → Parsed
  pub name_order : Name → Name → Bool
  pub locale_order : String → String → Bool
  pub stem : String → Option String
  pub split : String → Name
  pub slice : String → String

module _ {B : Type 0} where
  abbrev pub raw_names : List (Name × B) → List Name
  raw_names entries = keep is_file (map (λ (e : Name × B). e.0) entries)

  unfoldable bytes : List (Name × B) → Name → Option B
  unfolding same_name
  bytes [] n = none
  bytes ((m, b) ∷ rest) n = if same_name m n then some b else bytes rest n

module _ {B : Type 0} (host : Host B) where
  unfoldable pub get : List (Name × B) → Name → Option B
  unfolding get_name bytes is_file
  get entries r = elim (get_name (raw_names entries) r) [ none ↦ none | some n ↦ bytes entries n ]

  unfoldable pub files_of : List Name → List Name
  unfolding rel strip_of sort_by
  files_of raw = sort_by host.name_order (map (rel (strip_of raw)) raw)

  -- The stem of `tests/stem.in`.
  unfoldable stem_of : Name → Option String
  stem_of [] = none
  stem_of (d ∷ []) = none
  stem_of (d ∷ f ∷ []) = if str_eq d "tests" then host.stem f else none
  stem_of (d ∷ e ∷ f ∷ rest) = none

  abbrev in_tests : String → String → Name
  in_tests name suffix = "tests" ∷ joined name suffix ∷ []

  abbrev answered : List Name → String → Bool
  answered files s = has_file files (in_tests s ".ans") || has_file files (in_tests s ".out")

  unfoldable test_files : List Name → List Name → List TestFile
  unfolding stem_of has_file
  test_files files [] = []
  test_files files (f ∷ rest) =
      let later = test_files files rest in
      elim (stem_of f) [
        | none ↦ later
        | some s ↦ record { name = s; has_answer = answered files s } ∷ later
      ]

  unfoldable pub tests_of : List Name → List TestFile
  unfolding test_files sort_by
  tests_of files =
      sort_by (λ (a b : TestFile). host.locale_order a.name b.name) (test_files files files)

  -- What problem.json is parsed as, if it is there.
  unfoldable pub parsed_of : List (Name × B) → Option Parsed
  unfolding get
  parsed_of entries = elim (get entries ("problem.json" ∷ [])) [
    | none ↦ none
    | some b ↦ some (host.parse (host.decode b))
  ]

  abbrev pub is_bad : Option Parsed → Bool
  is_bad (some not_json) = true
  is_bad _ = false

  -- `problem`, where `if (problem)` lets it through.
  abbrev pub as_problem : Option Parsed → Option ProblemJson
  as_problem (some (read j)) = some j
  as_problem _ = none

  unfoldable pub problem_of : List (Name × B) → Option ProblemJson
  unfolding parsed_of
  problem_of entries = as_problem (parsed_of entries)

  abbrev pub is_checked : ProblemJson → Bool
  is_checked j = str_eq (or_else j.compare "") "checker"

  abbrev pub is_reference_missing : List Name → ProblemJson → Bool
  is_reference_missing files j = elim (reference_file j) [
    | none ↦ false
    | some (l, f) ↦ not (has_file files (host.split f))
  ]

  abbrev pub issue_tests : List (Name × B) → List (Bool × Issue)
  issue_tests entries =
      let raw = raw_names entries in
      let files = files_of raw in
      let problem = problem_of entries in
      let parsed = parsed_of entries in
      (length raw == 0, empty_zip)
      ∷ (not (is_some parsed), no_problem_json)
      ∷ (is_bad parsed, bad_json)
      ∷ (
        of_problem problem (λ j. is_checked j && not (has_file files ("checker.py" ∷ []))),
        no_checker,
      )
      ∷ (of_problem problem (λ j. j.hack_only && not (is_some j.reference)), no_reference)
      ∷ (of_problem problem (λ j. not j.hack_only && length (tests_of files) == 0), no_tests)
      ∷ (of_problem problem (is_reference_missing files), reference_missing)
      ∷ []

  abbrev names_of : List TestFile → List String
  names_of [] = []
  names_of (t ∷ rest) = t.name ∷ names_of rest

  abbrev sizes_of : List TestFile → List ℕ
  sizes_of [] = []
  sizes_of (t ∷ rest) = size t.name ∷ sizes_of rest

  unfoldable warnings_of : List (Name × B) → List Warning
  unfolding reported set_of files_of tests_of problem_of has_file size
  warnings_of entries =
      let files = files_of (raw_names entries) in
      let tests = tests_of files in
      let problem = problem_of entries in
      let lacking = keep (λ (t : TestFile). not t.has_answer) tests in
      reported (
        (
          not (length lacking == 0),
          unanswered (length lacking) (take 3 (names_of lacking)) (ltb 3 (length lacking)),
        )
        ∷ (ltb 1 (length tests) && ltb 1 (length (set_of ◌==◌ (sizes_of tests))), not_padded)
        ∷ (of_problem problem (λ j. not j.time_limit), no_time_limit)
        ∷ (of_problem problem (λ j. not j.memory_limit), no_memory_limit)
        ∷ (
          of_problem problem (λ j. j.hack_only && not (has_file files ("validator.py" ∷ []))),
          no_validator,
        )
        ∷ [])

  -- `a ?? b`, the answer file of a test.
  abbrev answer_of : List (Name × B) → String → Option B
  answer_of entries s = or_first (get entries (in_tests s ".ans")) (get entries (in_tests s ".out"))

  abbrev clip_bytes : B → Clipped
  clip_bytes b = clip host.slice (host.decode b)

  -- The samples of the first tests, up to one whose input is not there.
  unfoldable samples_of : List (Name × B) → List TestFile → List (Clipped × Option Clipped)
  unfolding get clip
  samples_of entries [] = []
  samples_of entries (t ∷ rest) =
      let later = samples_of entries rest in
      elim (get entries (in_tests t.name ".in")) [
        | none ↦ []
        | some b ↦ (clip_bytes b, map_option clip_bytes (answer_of entries t.name)) ∷ later
      ]

  abbrev reference_of : List Name → ProblemJson → Option (String × Bool)
  reference_of files j = elim (reference_file j) [
    | none ↦ none
    | some (l, f) ↦ some (f, has_file files (host.split f))
  ]

  unfoldable pub inspect : Option (List (Name × B)) → (sample_count : ℕ) → Inspection
  unfolding reported strip_of files_of tests_of problem_of has_file samples_of warnings_of
      reference_file
  inspect none sample_count = record {
    files = [];
    stripped_folder = none;
    problem = none;
    tests = [];
    has_checker = false;
    has_validator = false;
    reference = none;
    samples = [];
    issues = not_a_zip ∷ [];
    warnings = [];
  }
  inspect (some entries) sample_count =
      let raw = raw_names entries in
      let files = files_of raw in
      let tests = tests_of files in
      let problem = problem_of entries in
      record {
        files = files;
        stripped_folder = strip_of raw;
        problem = problem;
        tests = tests;
        has_checker = has_file files ("checker.py" ∷ []);
        has_validator = has_file files ("validator.py" ∷ []);
        reference = elim problem [ none ↦ none | some j ↦ reference_of files j ];
        samples = samples_of entries (take sample_count tests);
        issues = reported (issue_tests entries);
        warnings = warnings_of entries;
      }

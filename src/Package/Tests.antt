-- ===== src/Package/Tests.antt =====
-- A package on concrete data: its bytes are texts, and a text is a problem.json that asks for nothing.
use codolympics.Prelude.{
  ◌≡◌, refl, true, false, ◌⊎◌, String, List, [], ◌∷◌, Option, none, some, str_eq, if◌then◌else◌,
}
use codolympics.Prelude.Lists.{here, there}
use codolympics.Package.Inspect.{
  Name, ProblemJson, empty_value, read, parsed_of, Host, inspect, files_of, tests_of, problem_of,
  has_file, get, get_name, rel, strip_of, is_file, same_name,
}
use codolympics.Package.Paths.{get_name-rel}
use codolympics.Package.Accepted.{IsParsed, IsAccepted, inspect-IsAccepted}
use codolympics.Authoring.Platform.{reported, set_of}

abbrev asks_nothing : ProblemJson
asks_nothing = record {
  time_limit = true;
  memory_limit = true;
  compare = none;
  hack_only = false;
  reference = none;
}

abbrev host : Host String
host = record {
  decode = λ s. s;
  parse = λ s. if str_eq s "null" then empty_value else read asks_nothing;
  name_order = λ m n. true;
  locale_order = λ a b. true;
  stem = λ f. if str_eq f "01.in" then some "01" else none;
  split = λ s. s ∷ [];
  slice = λ s. s;
}

abbrev primes : List (Name × String)
primes =
    ("primes" ∷ "problem.json" ∷ [], "{}")
    ∷ ("primes" ∷ "tests" ∷ "01.in" ∷ [], "7")
    ∷ ("primes" ∷ "tests" ∷ "01.ans" ∷ [], "YES")
    ∷ []

abbrev names : List Name
names =
    ("primes" ∷ "problem.json" ∷ [])
    ∷ ("primes" ∷ "tests" ∷ "01.in" ∷ [])
    ∷ ("primes" ∷ "tests" ∷ "01.ans" ∷ [])
    ∷ []

get_name-rel_example :
    get_name names (rel (strip_of names) ("primes" ∷ "tests" ∷ "01.in" ∷ []))
    ≡ some ("primes" ∷ "tests" ∷ "01.in" ∷ [])
get_name-rel_example = get_name-rel names ("primes" ∷ "tests" ∷ "01.in" ∷ []) (there (here refl))

nothing_wrong : (inspect host (some primes) 3).issues ≡ []
unfolding inspect reported get get_name problem_of parsed_of files_of tests_of has_file is_file rel
    strip_of set_of same_name
nothing_wrong = refl

inspect-IsAccepted_example :
    (entries : List (Name × String)) × (◌≡◌ {A = Option (List (Name × String))}
      (some primes)
      (some entries))
    × (IsParsed host entries empty_value ⊎ ((j : ProblemJson) × IsAccepted host entries j))
inspect-IsAccepted_example = inspect-IsAccepted host (some primes) 3 nothing_wrong

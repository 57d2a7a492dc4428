-- ===== src/Authoring/Tests.antt =====
-- The authoring pages on concrete data: numbers are whole, "Sums " is the text that `trim` changes.
use codolympics.Prelude.{
  ℕ, ◌≡◌, ◌≢◌, refl, ap, Bool, true, false, ◌&&◌, String, List, [], ◌∷◌, ◌++◌, Option, none, some,
  if◌then◌else◌, ◌==◌, ==_iff, ltb, str_eq, str_eq_true, Bool-cases, inl, inr, All, In, arith,
}
use codolympics.Prelude.Lists.{here, there}
use codolympics.Authoring.Platform.{Platform, Documented}
use codolympics.Authoring.Puzzle.{Form, Payload, empty, from_puzzle, to_payload}
use codolympics.Authoring.Issues.{all_issues, basics_issues, content_issues, grading_issues}
use codolympics.Authoring.Stored.{holding, payload_again}
use codolympics.Authoring.Gradable.{IsGradable}
use codolympics.Authoring.Wizard.{
  Page, edited, saved, answered, reloaded, is_dirty, can_save, step, steps,
}
use codolympics.Authoring.Editing.{edit_options, saved_as}
use codolympics.Authoring.Hack.{
  Copy, Hack, Editor, selected, added, removed, in_language, typed, change, changes, payload,
}
use codolympics.Authoring.Hack
use codolympics.Authoring.Copies.{IsOnePerLanguage, changes-IsOnePerLanguage}
use codolympics.Authoring.Saving.{sent-IsGradable, added_copy_unnamed}

abbrev whole : Platform ℕ
whole = record {
  parse = λ s. if str_eq s "42" then 42 else 0;
  print = λ n. if n == 42 then "42" else "0";
  is_integer = λ n. true;
  is_nan = λ n. false;
  below = λ m n. ltb m n;
  literal = λ n. n;
  trim = λ s. if str_eq s "Sums " then "Sums" else s;
  is_pattern = λ s. true;
  defines_check = λ s. true;
}

trim_again : (s : String) → whole.trim (whole.trim s) ≡ whole.trim s
trim_again s = elim (Bool-cases (str_eq s "Sums ")) [ inl t ↦ rw t refl | inr n ↦ rw n (rw n refl) ]

whole-Documented : Documented whole
whole-Documented = record {
  trim_again = trim_again;
  trim_empty = refl;
  print_some = λ n. elim (Bool-cases (n == 42)) [ inl t ↦ rw t refl | inr f ↦ rw f refl ];
}

true-false : true ≡ false → ⊥
true-false e = absurd cc

abbrev sums : Form ℕ
unfolding empty
sums = record (empty whole) {
  title = "Sums ";
  body_md = "Which number comes next?";
  options = "five" ∷ "eight" ∷ [];
  key_option = some 1;
}

sums-clear : all_issues whole sums ≡ []
unfolding sums all_issues basics_issues content_issues grading_issues
sums-clear = refl

payload_again_example :
    to_payload whole
      (from_puzzle whole (holding (to_payload whole sums "first") 3 false false false))
      "second"
    ≡ to_payload whole sums "second"
unfolding sums
payload_again_example =
    payload_again whole whole-Documented sums "first" "second" 3 false false false sums-clear refl
      refl

-- Two forms by their titles.
abbrev same_title : Form ℕ → Form ℕ → Bool
same_title a b = str_eq a.title b.title

abbrev unsaved : Page (Form ℕ) (Payload ℕ)
unfolding empty sums
unsaved = record {
  form = sums;
  initial = empty whole;
  place = record { current = 3; reached = 4 };
  busy = false;
  failure = none;
  sent = [];
}

sent-IsGradable_example :
    All
      (IsGradable whole)
      (steps same_title
        (all_issues whole)
        (saved_as whole true)
        true
        unsaved
        (saved ∷ answered ∷ edited (edit_options ("five" ∷ [])) ∷ saved ∷ [])).sent
unfolding unsaved
sent-IsGradable_example =
    sent-IsGradable whole same_title true unsaved
      (saved ∷ answered ∷ edited (edit_options ("five" ∷ [])) ∷ saved ∷ []) refl

unsaved-can_save : can_save same_title (all_issues whole) (saved_as whole true) true unsaved ≡ true
unfolding can_save unsaved sums empty all_issues basics_issues content_issues grading_issues
unsaved-can_save = refl

titles : (a b : Form ℕ) → same_title a b ≡ true → a.title ≡ b.title
titles a b h = str_eq_true a.title b.title h

padded : whole.trim unsaved.form.title ≢ unsaved.form.title
unfolding unsaved sums
padded e = absurd (true-false (ap (λ s. str_eq s "Sums") e))

abbrev in_cpp : Copy
in_cpp = record { id = some 70; language = "cpp"; source = "int main() {}" }

abbrev in_python : Copy
in_python = record { id = none; language = "python"; source = "pass" }

changes-IsOnePerLanguage_example :
    IsOnePerLanguage
      (changes
        ("cpp" ∷ "java" ∷ [])
        (record { open_tab = 0; copies = in_cpp ∷ [] })
        (added ∷ in_language "cpp" ∷ selected 0 ∷ removed ∷ removed ∷ [])).copies
changes-IsOnePerLanguage_example =
    changes-IsOnePerLanguage ("cpp" ∷ "java" ∷ []) (record { open_tab = 0; copies = in_cpp ∷ [] })
      (added ∷ in_language "cpp" ∷ selected 0 ∷ removed ∷ removed ∷ [])
      (omega arith, (λ m. elim m [ ], tt))

-- Two questions by their copies.
same_id : Option ℕ → Option ℕ → Bool
same_id none none = true
same_id (some a) (some b) = a == b
same_id _ _ = false

same_id-eq : (a b : Option ℕ) → same_id a b ≡ true → a ≡ b
unfolding same_id
same_id-eq none none h = refl
same_id-eq none (some b) h = absurd cc
same_id-eq (some a) none h = absurd cc
same_id-eq (some a) (some b) h = ap some ((==_iff a b).0 h)

abbrev same_copy : Copy → Copy → Bool
unfolding same_id
same_copy a b = same_id a.id b.id && str_eq a.language b.language && str_eq a.source b.source

both : (a b : Bool) → (a && b) ≡ true → (a ≡ true) × (b ≡ true)
both a b h = ground arith

same_copy-eq : (a b : Copy) → same_copy a b ≡ true → a ≡ b
unfolding same_copy
same_copy-eq a b h =
    let (p, q) = both _ _ h in
    let (r, t) = both _ _ p in
    λ i. record {
      id = same_id-eq a.id b.id r i;
      language = str_eq_true a.language b.language t i;
      source = str_eq_true a.source b.source q i;
    }

same_copies : List Copy → List Copy → Bool
unfolding same_copy
same_copies [] [] = true
same_copies (a ∷ l) (b ∷ k) = let rest = same_copies l k in same_copy a b && rest
same_copies _ _ = false

same_copies-eq : (l k : List Copy) → same_copies l k ≡ true → l ≡ k
unfolding same_copies
same_copies-eq [] [] h = refl
same_copies-eq [] (b ∷ k) h = absurd cc
same_copies-eq (a ∷ l) [] h = absurd cc
same_copies-eq (a ∷ l) (b ∷ k) h =
    let (p, q) = both _ _ h in λ i. same_copy-eq a b p i ∷ same_copies-eq l k q i

abbrev same_hack : Hack ℕ → Hack ℕ → Bool
unfolding same_copies
same_hack a b = same_copies a.solutions b.solutions

abbrev prime_check : List Copy → Hack ℕ
prime_check copies = record {
  title = "Fast Prime Check";
  problem_id = "primes";
  hack_points = 20;
  fail_penalty = 0;
  order_index = 1;
  statement_md = "Print YES if n is prime.";
  constraints_md = "";
  solutions = copies;
}

abbrev with_python : Page (Hack ℕ) (Hack.Payload ℕ)
with_python = record {
  form = prime_check (in_cpp ∷ in_python ∷ []);
  initial = prime_check (in_cpp ∷ []);
  place = record { current = 2; reached = 4 };
  busy = false;
  failure = none;
  sent = [];
}

abbrev named_copies : List Copy
named_copies = in_cpp ∷ record in_python { id = some 71 } ∷ []

abbrev hack_issues : Hack ℕ → List String
hack_issues f = Hack.all_issues whole none f

with_python-can_save : can_save same_hack hack_issues (payload whole true) true with_python ≡ true
unfolding can_save same_hack same_copies same_copy same_id Hack.all_issues Hack.basics_issues
    Hack.statement_issues Hack.source_issues
with_python-can_save = refl

same_hack-solutions : (a b : Hack ℕ) → same_hack a b ≡ true → a.solutions ≡ b.solutions
unfolding same_hack
same_hack-solutions a b h = same_copies-eq a.solutions b.solutions h

added_copy_unnamed_example :
    let q =
      steps same_hack hack_issues
        (payload whole true)
        true
        with_python
        (saved ∷ answered ∷ reloaded (prime_check named_copies) ∷ []) in
    (q.form ≡ with_python.form)
    × (is_dirty same_hack hack_issues (payload whole true) q ≡ true)
    × ((step same_hack hack_issues (payload whole true) true q saved).sent
        ≡ (with_python.sent ++ payload whole true with_python.form ∷ [])
          ++ payload whole true with_python.form ∷ [])
    × In in_python (payload whole true with_python.form).form.solutions
added_copy_unnamed_example =
    added_copy_unnamed same_hack hack_issues whole with_python (prime_check named_copies) in_python
      same_hack-solutions with_python-can_save (there (here refl)) refl
      ((70, refl), ((71, refl), tt))

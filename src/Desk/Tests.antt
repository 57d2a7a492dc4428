-- ===== src/Desk/Tests.antt =====
-- The workspace of a question on concrete data.
use codolympics.Prelude.{◌+◌, ◌⊎◌, ◌≡◌, refl, true, false, List, [], ◌∷◌, ◌++◌, none}
use codolympics.Desk.Drafts.{Desk, Event, typed, switched, reset, elapsed, steps, idle}
use codolympics.Desk.Kept.{Shows, code_of, expected_after, steps-kept, left_language_lem}
use codolympics.Desk.Submitting.{
  Page, clicked, keyed, run_clicked, can_submit, in_flight, steps as presses,
}
use codolympics.Desk.Keys.{IsFree, clicks_once, keys_unguarded}

abbrev in_cpp : Desk
in_cpp = record {
  language = "cpp";
  source = "int main() {}";
  code = ("python", "pass") ∷ [];
  browser = [];
  timer = none;
  sent = [];
  status = idle;
  loaded_draft = true;
}

abbrev session : List Event
session =
    typed "int main() { return 1; }" 5
    ∷ switched "python"
    ∷ typed "print(1)" 9
    ∷ elapsed
    ∷ reset 12
    ∷ switched "cpp"
    ∷ []

steps-kept_example :
    Shows
      (steps "cpp" in_cpp session)
      (expected_after (record { language = "cpp"; text = code_of in_cpp }) session)
steps-kept_example = steps-kept "cpp" in_cpp session refl

left_language_lem_example :
    let t = steps "cpp" in_cpp (typed "int x;" 5 ∷ switched "python" ∷ elapsed ∷ []) in
    let u =
      steps "cpp" in_cpp
        (typed "int x;" 5 ∷ switched "python" ∷ typed "print(1)" 6 ∷ elapsed ∷ []) in
    (t.language ≡ "python")
    × (t.sent ≡ (in_cpp.sent ++ ("python", t.source) ∷ []) ++ ("cpp", "int x;") ∷ [])
    × (u.sent ≡ (in_cpp.sent ++ ("python", t.source) ∷ []) ++ ("python", "print(1)") ∷ [])
left_language_lem_example = left_language_lem "cpp" in_cpp "int x;" "print(1)" "python" 5 6

abbrev waiting : Page
waiting = record {
  has_question = true;
  history = record { id = 4; judgement_state = "queued"; verdict = none } ∷ [];
  stage = "judging";
  cooldown = 0;
  busy = false;
  running = false;
  phase = "phase2";
  status = "owned";
  posted = 1;
  runs = 0;
}

waiting-can_submit : can_submit waiting ≡ false
unfolding can_submit in_flight
waiting-can_submit = refl

clicks_once_example :
    ((presses waiting (clicked ∷ run_clicked ∷ clicked ∷ [])).posted ≡ waiting.posted)
    ⊎ (((presses waiting (clicked ∷ run_clicked ∷ clicked ∷ [])).posted ≡ waiting.posted + 1)
        × IsFree waiting)
clicks_once_example =
    clicks_once waiting (clicked ∷ run_clicked ∷ clicked ∷ []) (tt, (tt, (tt, tt)))

keys_unguarded_example :
    ((presses waiting (clicked ∷ clicked ∷ [])).posted ≡ waiting.posted)
    × ((presses waiting (keyed ∷ keyed ∷ [])).posted ≡ waiting.posted + 2)
keys_unguarded_example = keys_unguarded waiting refl waiting-can_submit

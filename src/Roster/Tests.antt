-- ===== src/Roster/Tests.antt =====
-- The roster and a participant's record on concrete data.
use mathlib.Core.List.{Perm}
use codolympics.Prelude.{
  ℕ, ◌+◌, ◌≤◌, ◌≡◌, ◌++◌, refl, true, false, ◌&&◌, String, [], ◌∷◌, none, some, if◌then◌else◌, All,
  leb, ◌==◌,
}
use codolympics.Roster.Actions.{Participant, UnsoldQuestion, assign}
use codolympics.Roster.People.{menu, in_phase2}
use codolympics.Roster.Joining.{
  Words, IsEcmaScript, is_upper, Dialog, named, passworded, submitted, steps,
}
use codolympics.Roster.SignIn.{CanSignIn, created-CanSignIn}
use codolympics.Roster.Record.{
  Page, read, failed, view, could_not_be_loaded, actions, step, steps as loads,
}
use codolympics.Roster.Agreement.{times, menu-actions, failed_for_good}

abbrev script : Words
script = record {
  trim = λ s. s;
  is_space = λ c. c == b' ';
  lower = λ c. if leb b'A' c && leb c b'Z' then c + 32 else c;
}

script-IsEcmaScript : IsEcmaScript script
unfolding is_upper
script-IsEcmaScript = record { space_only = λ c h. refl; lower_ascii = λ c h. refl }

abbrev empty_form : Dialog
empty_form = record {
  f = record { username = ""; password = ""; language = "cpp" };
  error = none;
  busy = false;
  sent = [];
}

created-CanSignIn_example :
    All
      (CanSignIn script)
      (steps script empty_form (named "Ada L" ∷ passworded "amber-onyx-42" ∷ submitted ∷ [])).sent
created-CanSignIn_example =
    created-CanSignIn script script-IsEcmaScript empty_form
      (named "Ada L" ∷ passworded "amber-onyx-42" ∷ submitted ∷ []) tt

abbrev ada : Participant
ada = record {
  id = "u1";
  name = "Ada";
  username = some "ada";
  balance = 900;
  preferred_language = none;
  owned = 0;
  disqualified = false;
  disqualified_reason = none;
  proctor_alerts = 3;
  proctor_locked = true;
}

abbrev knapsack : UnsoldQuestion ℕ
knapsack = record { id = "q1"; title = "Knapsack"; base_price = 100 }

menu-actions_example :
    Perm (menu "coding1" (knapsack ∷ []) ada) (actions "coding1" 0 true false (knapsack ∷ []))
    × (times assign (menu "coding1" (knapsack ∷ []) ada) ≤ 1)
    × Perm
        (menu "coding1" (knapsack ∷ []) ada)
        (assign ∷ [] ++ actions {N = ℕ} "coding1" 0 true false [])
unfolding in_phase2
menu-actions_example = menu-actions "coding1" (knapsack ∷ []) ada assign

abbrev fresh : Page String ℕ
fresh = record { d = some "Ada"; unsold = []; error = false }

failed_for_good_example :
    view (loads (step fresh failed) (read "Ada" [] ∷ [])) ≡ could_not_be_loaded
failed_for_good_example = failed_for_good fresh (read "Ada" [] ∷ [])

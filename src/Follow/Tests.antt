-- ===== src/Follow/Tests.antt =====
-- use-judgement.ts: the loop over texts as values, with the value itself as its signature, done on "AC".
use codolympics.Prelude.{
  ℕ, ◌≡◌, ◌≢◌, refl, Bool, true, false, String, List, [], ◌∷◌, none, some, ◌⊎◌, str_eq,
}
use codolympics.Follow.Machine.{
  first_ms, Follower, answered, aborted, Happening, fired, ended, poked, poll, note_change,
  schedule, settle, poke, restart, happen, happens,
}
use codolympics.Follow.Awake.{restart_awake}

abbrev shown_text : String → String
shown_text s = s

abbrev is_accepted : String → Bool
is_accepted s = str_eq s "AC"

abbrev fresh : Follower String
fresh = record {
  value = none;
  stalled = false;
  unreachable = false;
  gone = false;
  timer = none;
  delay = first_ms;
  in_flight = false;
  changed_at = 0;
  seen = "";
  done = false;
  hidden = false;
  sent = 0;
}

abbrev judged : List (Happening String)
judged = ended (answered 400 "queued") ∷ fired ∷ ended (answered 900 "AC") ∷ poked ∷ []

answered-aborted : (now : ℕ) (v : String) → ended (answered now v) ≢ ended aborted
answered-aborted now v h = cc

restart_awake_example :
    let g = happens shown_text is_accepted (restart 0 none fresh) judged in
    ((g.done ≡ true) × (g.timer ≡ none) × (g.in_flight ≡ false))
    ⊎ ((g.done ≡ false) × ((g.hidden ≡ true) ⊎ ((g.in_flight ≡ true) ⊎ (g.timer ≢ none))))
restart_awake_example =
    restart_awake shown_text is_accepted 0 none fresh judged refl
      (λ h. cc, (λ h. cc, (λ h. cc, (λ h. cc, tt))))

-- The run sends two requests and ends finished, on the verdict.
judged_run :
    let g = happens shown_text is_accepted (restart 0 none fresh) judged in
    (g.done ≡ true) × (g.sent ≡ 2) × (g.value ≡ some "AC")
unfolding happens happen restart poll settle note_change schedule poke
judged_run = (refl, refl, refl)

abbrev over : Follower String
over = record fresh { done = true; value = some "AC"; sent = 2 }

abbrev asking : Follower String
asking = record fresh { in_flight = true; sent = 1 }

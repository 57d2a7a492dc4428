-- ===== src/Desk/Submitting.antt =====
-- web/src/app/(app)/question/[id]/page.tsx, `WorkspacePage`: the submission that is followed, what an
-- engine event sets off, and what the Submit and Run buttons and their keys do. The texts of the phase,
-- the status and the judgement's state are the source's.
use codolympics.Prelude.{
  ℕ, ◌+◌, ◌-◌, Bool, true, false, not, ◌&&◌, ◌||◌, String, List, [], ◌∷◌, Option, none, some,
  if◌then◌else◌, ◌==◌, is_some, any, str_eq,
}

pub record Entry : Type 0 where
  pub id : ℕ
  pub judgement_state : String
  pub verdict : Option String

-- `newest && newest.judgement.state !== "done" ? newest.id : null`.
unfoldable pub following : List Entry → Option ℕ
following [] = none
following (e ∷ rest) = if not (str_eq e.judgement_state "done") then some e.id else none

abbrev is_accepted : Option String → Bool
is_accepted none = false
is_accepted (some v) = str_eq v "AC"

-- `solved`, with the verdict of the copy that is followed.
unfoldable is_solved : List Entry → (latest : Option String) → Bool
is_solved history latest = any (λ (e : Entry). is_accepted e.verdict) history || is_accepted latest

pub data Notice : Type 0 where
  balance : Notice
  verdict : (submission : Option ℕ) → (rejudge : Bool) → Notice

pub data Reaction : Type 0 where
  reload poke : Reaction

abbrev differs : Option ℕ → Option ℕ → Bool
differs none following = false
differs (some n) none = true
differs (some n) (some k) = not (n == k)

-- A balance, a verdict that is not of the submission followed, or a rejudgement: the question is read
-- again. Else it is time to look at the one followed.
unfoldable pub on_notice : (following : Option ℕ) → Notice → Reaction
on_notice following balance = reload
on_notice following (verdict submission rejudge) =
    if rejudge || differs submission following then reload else poke

-- `Math.max(0, end - serverNow())`.
unfoldable cooldown_at : (end now : ℕ) → ℕ
cooldown_at end now = end - now

-- The page as the buttons see it; `stage` is that of the follower, `posted` counts the submissions sent
-- and `runs` the runs asked for.
pub record Page : Type 0 where
  pub has_question : Bool
  pub history : List Entry
  pub stage : String
  pub cooldown : ℕ
  pub busy : Bool
  pub running : Bool
  pub phase : String
  pub status : String
  pub posted : ℕ
  pub runs : ℕ

unfoldable pub in_flight : Page → Bool
unfolding following
in_flight p = is_some (following p.history) && not (str_eq p.stage "done")

unfoldable pub can_submit : Page → Bool
unfolding in_flight
can_submit p =
    not (in_flight p)
    && p.cooldown == 0
    && not p.busy
    && not (str_eq p.phase "ended")
    && not (str_eq p.status "void")

-- `submit()` and `runSamples()`, up to their requests.
unfoldable pub submit : Page → Page
submit p = if p.has_question then record p { busy = true; posted = p.posted + 1 } else p

unfoldable pub run_samples : Page → Page
run_samples p =
    if not p.has_question || p.running then p else record p { running = true; runs = p.runs + 1 }

-- The two buttons, their keys (Ctrl+Enter and Ctrl+'), and the ends of the requests; `failed` is a
-- submission refused, `answered` one taken and the question read again.
pub data Event : Type 0 where
  clicked keyed run_clicked run_keyed failed run_ended : Event
  answered : (history : List Entry) → (cooldown : ℕ) → Event

unfoldable pub step : Page → Event → Page
unfolding can_submit submit run_samples
step p clicked = if p.has_question && can_submit p then submit p else p
step p keyed = submit p
step p run_clicked =
    if p.has_question && not (p.running || str_eq p.status "void") then run_samples p else p
step p run_keyed = run_samples p
step p failed = record p { busy = false }
step p run_ended = record p { running = false }
step p (answered history cooldown) = record p {
  busy = false;
  history = history;
  cooldown = cooldown;
}

unfoldable pub steps : Page → List Event → Page
unfolding step
steps p [] = p
steps p (e ∷ rest) = steps (step p e) rest

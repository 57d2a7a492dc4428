-- ===== src/Desk/Console.antt =====
-- web/src/components/contest/console.tsx: a run of the samples as `useRun` follows it, and what the
-- console under the editor shows of a run and of a submission.
use codolympics.Prelude.{
  ℕ, suc, Bool, true, false, not, ◌&&◌, ◌||◌, String, List, [], ◌∷◌, Option, none, some,
  if◌then◌else◌, leb, length, get_elem?, take, keep, is_some, or_else, str_eq,
}

pub record RunOutput : Type 0 where
  pub verdict : String
  pub stdout : String
  pub stderr : String
  pub time_ms : ℕ
  pub memory_kb : ℕ

pub data RunState : Type 0 where
  pending queued running done : RunState

pub record Run : Type 0 where
  pub id : ℕ
  pub run_state : RunState
  pub verdict : Option String
  pub message : Option String
  pub compile_output : String
  pub outputs : Option (List RunOutput)

abbrev pub is_done : RunState → Bool
is_done done = true
is_done _ = false

-- `run === null || run.state !== "done"`.
abbrev is_unfinished : Option Run → Bool
is_unfinished none = true
is_unfinished (some r) = not (is_done r.run_state)

-- `useRun`: the run that was started, whether its start is being sent, and what the follower has of it.
pub record Runner : Type 0 where
  pub run_id : Option ℕ
  pub sending : Bool
  pub gone : Bool
  pub run : Option Run

unfoldable pub is_busy : Runner → Bool
is_busy r = r.sending || (is_some r.run_id && not r.gone && is_unfinished r.run)

abbrev is_going : Option Run → Bool
is_going none = false
is_going (some r) = not (is_done r.run_state)

-- `running` and `done` of the console.
unfoldable is_running : (sending : Bool) → Option Run → Bool
is_running sending run = sending || is_going run

unfoldable pub finished : Option Run → Option Run
finished none = none
finished (some r) = if is_done r.run_state then some r else none

abbrev is_accepted : RunOutput → Bool
is_accepted o = str_eq o.verdict "AC"

-- The samples that passed, where the run has finished with outputs.
unfoldable passed : (samples : ℕ) → Option Run → Option ℕ
unfolding finished
passed samples run = elim (finished run) [
  | none ↦ none
  | some r ↦ elim r.outputs [
    | none ↦ none
    | some l ↦ some (length (keep is_accepted (take samples l)))
  ]
]

-- `findIndex((o) => o.verdict !== "AC")`, `none` for -1.
unfoldable pub first_failure : List RunOutput → Option ℕ
first_failure [] = none
first_failure (o ∷ rest) =
    let later = first_failure rest in
    if not (is_accepted o) then some 0 else elim later [ none ↦ none | some i ↦ some (suc i) ]

-- The case that is open once a run has finished with outputs.
unfoldable pub opened : List RunOutput → (which : ℕ) → ℕ
unfolding first_failure
opened outputs which = or_else (first_failure outputs) which

unfoldable is_custom : (samples which : ℕ) → Bool
is_custom samples which = leb samples which

-- The output of the case that is open.
unfoldable shown_output : Option Run → (which : ℕ) → Option RunOutput
unfolding finished
shown_output run which = elim (finished run) [
  | none ↦ none
  | some r ↦ elim r.outputs [ none ↦ none | some l ↦ get_elem? l which ]
]

abbrev has_verdict : Run → String → Bool
has_verdict r v = elim r.verdict [ none ↦ false | some w ↦ str_eq w v ]

abbrev text_or : String → String → String
text_or text default = if str_eq text "" then default else text

-- The complaint that stands in for every output.
unfoldable failure : Option Run → Option String
unfolding finished
failure run = elim (finished run) [
  | none ↦ none
  | some r ↦
      if has_verdict r "CE"
      then some (text_or r.compile_output "The compiler gave no output.")
      else if has_verdict r "IE"
      then some (or_else r.message "The judge could not run it. Nothing is lost; try again.")
      else none
]

-- `explain(j)`, the kind of test it failed on apart.
pub data Explanation : Type 0 where
  cancelled_by_you solved compile_error judge_failed nothing_to_say : Explanation
  wrong too_slow too_much_memory too_much_output crashed : (on_sample : Bool) → Explanation

unfoldable explain : (cancelled on_sample : Bool) → Option String → Explanation
explain true on_sample v = cancelled_by_you
explain false on_sample none = nothing_to_say
explain false on_sample (some v) =
    if str_eq v "AC"
    then solved
    else if str_eq v "WA"
    then wrong on_sample
    else if str_eq v "TLE"
    then too_slow on_sample
    else if str_eq v "MLE"
    then too_much_memory on_sample
    else if str_eq v "OLE"
    then too_much_output on_sample
    else if str_eq v "RE"
    then crashed on_sample
    else if str_eq v "CE"
    then compile_error
    else if str_eq v "IE"
    then judge_failed
    else nothing_to_say

-- ===== src/Follow/Stage.antt =====
-- use-judgement.ts, `Judgement`, `stageOf` and the signature and end that `useJudgement` passes on.
use codolympics.Prelude.{ℕ, Bool, String, Option, none, some, if◌then◌else◌, str_eq, or_else}

pub record Progress : Type 0 where
  pub done : ℕ
  pub total : ℕ

pub record Judgement : Type 0 where
  pub id : ℕ
  pub state : String
  pub verdict : Option String
  pub passed : Option ℕ
  pub total : Option ℕ
  pub failed_on_sample : Option Bool
  pub max_time_ms : Option ℕ
  pub max_memory_kb : Option ℕ
  pub compile_output : Option String
  pub message : Option String
  pub progress : Progress
  pub cancelled : Bool
  pub created_at : String
  pub ended_at : Option String

pub data Stage : Type 0 where
  sending queued running done gone : Stage

unfoldable stage_of : Option Judgement → Stage
stage_of none = gone
stage_of (some j) =
    if str_eq j.state "done"
    then done
    else if str_eq j.state "running"
    then running
    else if str_eq j.state "queued"
    then queued
    else sending

-- The parts of the signature `${state}:${done}/${total}:${verdict ?? ""}`, which the source joins.
pub record Signature : Type 0 where
  pub state : String
  pub done : ℕ
  pub total : ℕ
  pub verdict : String

unfoldable pub signature : Judgement → Signature
signature j = record {
  state = j.state;
  done = j.progress.done;
  total = j.progress.total;
  verdict = or_else j.verdict "";
}

unfoldable pub finished : Judgement → Bool
finished j = str_eq j.state "done"

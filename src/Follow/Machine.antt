-- ===== src/Follow/Machine.antt =====
-- use-judgement.ts, `useFollow`: the poll loop as a machine over the hook's refs and state. One life
-- cycle has one non-null url. `delay` is in eighths of a millisecond, so that growing it by half is
-- exact; `sent` counts the requests that were made. What the network answers and the clock shows come
-- with the events. `signature` and `finished` are the caller's.
use codolympics.Prelude.{
  ℕ, ◌+◌, ◌*◌, ◌/◌, ◌-◌, min, Bool, true, false, ◌||◌, String, List, [], ◌∷◌, Option, none, some,
  if◌then◌else◌, ltb, ◌==◌, str_eq, is_some,
}

abbrev pub first_ms : ℕ
first_ms = 350 * 8

abbrev pub max_ms : ℕ
max_ms = 2000 * 8

abbrev stalled_after_ms : ℕ
stalled_after_ms = 20000

-- `Math.min(MAX_MS, delay * GROWTH)`, GROWTH being 1.5.
unfoldable pub grow : ℕ → ℕ
grow delay = min max_ms (delay * 3 / 2)

pub record Follower (T : Type 0) : Type 0 where
  pub value : Option T
  pub stalled : Bool
  pub unreachable : Bool
  pub gone : Bool
  pub timer : Option ℕ
  pub delay : ℕ
  pub in_flight : Bool
  pub changed_at : ℕ
  pub seen : String
  pub done : Bool
  pub hidden : Bool
  pub sent : ℕ

-- How a request ends: a status that is not ok, an answer that reads as a value, or an exception (the
-- network's, the parser's, or that of an abort).
pub data Outcome (T : Type 0) : Type 0 where
  refused : (status : ℕ) → Outcome T
  answered : (now : ℕ) → T → Outcome T
  threw : Outcome T
  aborted : Outcome T

pub data Happening (T : Type 0) : Type 0 where
  fired : Happening T
  ended : Outcome T → Happening T
  poked : Happening T
  visibility : (hidden : Bool) → Happening T

abbrev pub is_gone : ℕ → Bool
is_gone status = status == 401 || status == 403 || status == 404

module _ {T : Type 0} where
  abbrev clear : Follower T → Follower T
  clear f = record f { timer = none }

  -- `poll()` up to its `await fetch(…)`: nothing when done, when a request is out, or when hidden.
  unfoldable pub poll : Follower T → Follower T
  poll f =
      if f.done || f.in_flight || f.hidden
      then f
      else record f { in_flight = true; sent = f.sent + 1 }

  -- The end of `poll()`: the next one is scheduled unless the job is done.
  unfoldable pub schedule : Follower T → Follower T
  schedule f = if f.done then f else record f { timer = some f.delay }

  -- The value's signature against the last one seen.
  unfoldable pub note_change : ℕ → String → Follower T → Follower T
  note_change now sig f =
      if str_eq sig f.seen
      then record f {
        delay = grow f.delay;
        stalled = if ltb stalled_after_ms (now - f.changed_at) then true else f.stalled;
      }
      else record f { seen = sig; changed_at = now; delay = first_ms; stalled = false }

  -- The network or the judge is unhappy: keep asking, more slowly.
  unfoldable pub complain : Follower T → Follower T
  complain f = record f { unreachable = true; delay = grow f.delay; in_flight = false }

  unfoldable pub poke : Follower T → Follower T
  poke f = if f.done then f else poll (record f { delay = first_ms; timer = none })

  -- The effect on a new url: the old request is aborted, which is heard of later, the life cycle is
  -- reset, and the first poll is tried.
  unfoldable pub restart : ℕ → Option T → Follower T → Follower T
  restart now initial f = poll (record f {
    done = false;
    delay = first_ms;
    seen = "";
    changed_at = now;
    stalled = false;
    unreachable = false;
    gone = false;
    value = initial;
    timer = none;
  })

module _ {T : Type 0} (signature : T → String) (finished : T → Bool) where
  -- The rest of `poll()` once its request has ended.
  unfoldable pub settle : Outcome T → Follower T → Follower T
  settle (refused status) f =
      if is_gone status
      then record f { done = true; gone = true; timer = none; in_flight = false }
      else schedule (complain f)
  settle (answered now next) f =
      let g =
        note_change now (signature next)
          (record f { unreachable = false; value = some next; in_flight = false }) in
      if finished next then record g { done = true; timer = none } else schedule g
  settle threw f = schedule (complain f)
  settle aborted f = record f { in_flight = false }

  -- A timer fires only if one is set, and a request ends only if one is out.
  unfoldable pub happen : Follower T → Happening T → Follower T
  happen f fired = if is_some f.timer then poll (clear f) else f
  happen f (ended o) = if f.in_flight then settle o f else f
  happen f poked = poke f
  happen f (visibility h) = let g = record f { hidden = h } in if h then clear g else poke g

  unfoldable pub happens : Follower T → List (Happening T) → Follower T
  happens f [] = f
  happens f (h ∷ rest) = happens (happen f h) rest

-- The hook as it mounts, before its effect has run.
unfoldable pub mounted : {T : Type 0} → (hidden : Bool) → ℕ → Option T → Follower T
mounted hidden now initial = record {
  value = initial;
  stalled = false;
  unreachable = false;
  gone = false;
  timer = none;
  delay = first_ms;
  in_flight = false;
  changed_at = now;
  seen = "";
  done = false;
  hidden = hidden;
  sent = 0;
}

-- ===== src/Office/Feed.antt =====
-- web/src/app/(app)/admin/judge/page.tsx: the feed of the judge's work, how it is read and what is listed.
-- `has` is `a.toLowerCase().includes(q)` with `q` in lower case.
use codolympics.Prelude.{
  ℕ, ◌+◌, Bool, true, false, not, ◌&&◌, ◌||◌, String, List, [], ◌∷◌, Option, none, some,
  if◌then◌else◌, ltb, keep, or_else, str_eq,
}

pub data WorkKind : Type 0 where
  submission run hack validator : WorkKind

-- `Work`, less what the page only prints.
pub record Work : Type 0 where
  pub kind : WorkKind
  pub key : String
  pub ref : Option String
  pub question_id : Option String
  pub job_id : Option String
  pub live : Bool
  pub participant_id : String
  pub name : String
  pub target : String
  pub problem_id : Option String

-- The page that shows a job in full: a participant's hacks of a question, or the job's own.
pub data Href : Type 0 where
  to_hacks : (participant question : String) → Href
  to_job : (ref : String) → Href

abbrev is_hack : WorkKind → Bool
is_hack hack = true
is_hack _ = false

abbrev job_of : Option String → Option Href
job_of none = none
job_of (some r) = if str_eq r "" then none else some (to_job r)

unfoldable pub href_of : Work → Option Href
href_of w = elim w.question_id [
  | none ↦ job_of w.ref
  | some q ↦ if is_hack w.kind then some (to_hacks w.participant_id q) else job_of w.ref
]

-- `Feed`: the judge's status, where it answered, the work, and how much of it is in flight.
pub record Feed : Type 0 where
  pub judge : Option String
  pub work : List Work
  pub live : ℕ

-- `in_flight` holds, of the request that is out, whether it was asked for by hand; `asked` counts them.
pub record Page : Type 0 where
  pub feed : Option Feed
  pub busy : Bool
  pub in_flight : Option Bool
  pub asked : ℕ

unfoldable pub load : (manual : Bool) → Page → Page
load manual p = elim p.in_flight [
  | some m ↦ p
  | none ↦ record p { in_flight = some manual; busy = p.busy || manual; asked = p.asked + 1 }
]

abbrev pub live_of : Option Feed → ℕ
live_of none = 0
live_of (some f) = f.live

-- The interval of the timer, in milliseconds.
unfoldable cadence : Page → ℕ
cadence p = if ltb 0 (live_of p.feed) then 1500 else 6000

unfoldable pub is_down : Option Feed → Bool
is_down none = false
is_down (some f) = elim f.judge [ none ↦ true | some s ↦ not (str_eq s "ok") ]

-- The judge of a feed that could not be read again.
abbrev pub without_judge : Option Feed → Option Feed
without_judge none = none
without_judge (some f) = some (record f { judge = none })

-- The end of the request that is out, with the feed that stands then.
unfoldable pub settle : Option Feed → Page → Page
settle feed p = elim p.in_flight [
  | none ↦ p
  | some m ↦ record p { feed = feed; in_flight = none; busy = p.busy && not m }
]

abbrev pub differs : Bool → Bool → Bool
differs true b = not b
differs false b = b

-- A tick of the timer, with whether the tab is hidden; "Re-check"; the ends of a request. Where work
-- begins or ends to be in flight, the effect starts over and asks at once.
pub data Event : Type 0 where
  ticked : (hidden : Bool) → Event
  pressed : Event
  answered : Feed → Event
  failed : Event

unfoldable pub step : Page → Event → Page
unfolding load settle
step p (ticked hidden) = if hidden then p else load false p
step p pressed = load true p
step p (answered f) =
    let q = settle (some f) p in
    if differs (ltb 0 (live_of p.feed)) (ltb 0 (live_of q.feed)) then load false q else q
step p failed = settle (without_judge p.feed) p

unfoldable pub steps : Page → List Event → Page
unfolding step
steps p [] = p
steps p (e ∷ es) = steps (step p e) es

abbrev same_kind : WorkKind → WorkKind → Bool
same_kind submission submission = true
same_kind run run = true
same_kind hack hack = true
same_kind validator validator = true
same_kind _ _ = false

-- The chip of the kinds, `none` for everything, and the text of the filter.
unfoldable pub match_work : (has : String → String → Bool) → Option WorkKind → String → Work → Bool
match_work has kind filter w =
    elim kind [ none ↦ true | some k ↦ same_kind w.kind k ]
    && (str_eq filter ""
        || (has w.name filter
            || (has w.target filter
                || (has (or_else w.problem_id "") filter || has (or_else w.job_id "") filter))))

unfoldable pub running : (Work → Bool) → List Work → List Work
running found all = keep (λ (w : Work). w.live && found w) all

unfoldable pub finished : (Work → Bool) → List Work → List Work
finished found all = keep (λ (w : Work). not w.live && found w) all

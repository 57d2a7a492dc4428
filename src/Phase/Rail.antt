-- ===== src/Phase/Rail.antt =====
-- web/src/components/contest/phase-rail.tsx, `WHERE` and `PhaseRail`, and the organisers' stepper,
-- web/src/components/ui/stepper.tsx.
use codolympics.Prelude.{
  ℕ, ◌+◌, Bool, ◌||◌, String, List, [], ◌∷◌, Option, none, some, if◌then◌else◌, str_eq, ◌==◌, ltb,
  or_else,
}

pub record Where : Type 0 where
  pub step : ℕ
  pub started : String
  pub todo : String

abbrev at : ℕ → String → String → Where
at step started todo = record { step = step; started = started; todo = todo }

abbrev where_table : List (String × Where)
where_table =
    ("registration", at 0 "Registration is open" "Waiting for the organisers to start")
    ∷ (
      "p1_puzzles",
      at 1 "Section A has started: the puzzles"
          "Answer the puzzles. Change any answer until it closes",
    )
    ∷ (
      "p1_hacking",
      at 2 "Section B has started: hacking" "Break the given solutions with a test input",
    )
    ∷ ("review", at 2 "Section B is over" "Marking in progress. Nothing to do")
    ∷ ("auction1", at 3 "Auction 1 has started" "Bid for the questions you want to solve")
    ∷ ("coding1", at 4 "Coding round 1 has started" "Solve the questions you own")
    ∷ ("auction2", at 3 "Auction 2 has started" "Bid for what is left, or keep solving")
    ∷ ("final", at 4 "The final round has started" "Last round. Solve what you own")
    ∷ ("ended", at 5 "The contest has ended" "The contest is over")
    ∷ []

-- `WHERE[phase]`.
unfoldable lookup_where : String → List (String × Where) → Option Where
lookup_where phase [] = none
lookup_where phase ((k, w) ∷ rest) = if str_eq phase k then some w else lookup_where phase rest

unfoldable pub here : String → Where
unfolding lookup_where
here phase = or_else (lookup_where phase where_table) (at 0 "" "")

abbrev pub steps : List String
steps = "Puzzles" ∷ "Hacking" ∷ "Auction" ∷ "Coding" ∷ "Result" ∷ []

pub data Mark : Type 0 where
  now done todo : Mark

-- The mark of the `i`-th step in a phase that stands at `step`.
unfoldable pub mark : (step i : ℕ) → Mark
mark step i = if step == i + 1 then now else if ltb (i + 1) step then done else todo

-- What the rail shows of a shield and of a break from attacks.
pub record Shield : Type 0 where
  pub active : Bool
  pub ends_at : Option String
  pub queued : ℕ

pub data ChipLabel : Type 0 where
  starting up : ChipLabel
  counting : (until : String) → ChipLabel

unfoldable shield_chip : Option Shield → Option ChipLabel
shield_chip none = none
shield_chip (some s) =
    if s.active || ltb 0 s.queued
    then some (if s.active then elim s.ends_at [ none ↦ up | some t ↦ counting t ] else starting)
    else none

-- `steps.findIndex((s) => s.key === current)`, `none` for -1.
unfoldable find_index : String → List String → Option ℕ
find_index key [] = none
find_index key (k ∷ rest) =
    let later = find_index key rest in
    if str_eq k key then some 0 else elim later [ none ↦ none | some i ↦ some (i + 1) ]

-- `Math.max(0, findIndex(…))`, and the state of the `i`-th tick of the track.
unfoldable stepper_index : String → List String → ℕ
unfolding find_index
stepper_index current keys = or_else (find_index current keys) 0

unfoldable tick_mark : (index i : ℕ) → Mark
tick_mark index i = if ltb i index then done else if i == index then now else todo

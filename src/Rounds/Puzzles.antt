-- ===== src/Rounds/Puzzles.antt =====
-- web/src/components/contest/section-a.tsx: `SectionA`, the page of puzzles around the question that is
-- open. The requests are events with their outcomes; `state.me.p1_puzzles_finished` is an argument.
use codolympics.Prelude.{
  ℕ, zero, suc, ◌+◌, ◌-◌, ◌*◌, ◌/◌, Bool, true, false, not, ◌&&◌, ◌||◌, String, List, [], ◌∷◌,
  Option, none, some, if◌then◌else◌, leb, ◌==◌, ℤ, pos, negsuc, length, get_elem?, is_some,
}

pub record Data : Type 0 where
  pub is_open : Bool
  pub questions : List ℕ
  pub answers : List ℕ

pub record Page : Type 0 where
  pub data_read : Option Data
  pub error : Option String
  pub finish_open : Bool
  pub current : ℤ

unfoldable pub mounted : Page
mounted = record { data_read = none; error = none; finish_open = false; current = pos 0 }

-- `data?.questions.length ?? 0`.
unfoldable pub total : Page → ℕ
total p = elim p.data_read [ none ↦ 0 | some d ↦ length d.questions ]

pub data Direction : Type 0 where
  previous next : Direction

-- `Math.max(0, c + d)` for `d` of `-1` and `1`.
unfoldable pub moved : Direction → ℤ → ℕ
moved next (pos n) = n + 1
moved next (negsuc n) = 0
moved previous (pos n) = n - 1
moved previous (negsuc n) = 0

-- `Math.min(total - 1, …)`: with no questions it is `-1`.
unfoldable pub clamp : ℕ → ℕ → ℤ
clamp zero c = negsuc 0
clamp (suc n) c = pos (if leb c n then c else n)

unfoldable pub go : ℕ → Direction → ℤ → ℤ
unfolding moved clamp
go n d c = clamp n (moved d c)

pub data Event : Type 0 where
  loaded : Data → Event
  load_failed : String → Event
  -- An arrow key; `typing` is whether a field has the focus.
  arrow : (typing : Bool) → Direction → Event
  stepped : Direction → Event
  picked : ℕ → Event
  finish_asked finish_cancelled finish_done finish_refused : Event

-- `current >= total - 1`.
abbrev is_last : ℕ → ℤ → Bool
is_last n (pos c) = leb n (c + 1)
is_last n (negsuc zero) = n == 0
is_last n (negsuc (suc k)) = false

abbrev is_first : ℤ → Bool
is_first (pos c) = c == 0
is_first (negsuc k) = false

-- Before the data is there, or after an error, nothing of the page is drawn.
unfoldable pub is_drawn : Page → Bool
is_drawn p = is_some p.data_read && not (is_some p.error)

-- The "Previous" and "Next" buttons take no click at the ends.
unfoldable pub can_step : Page → Direction → Bool
unfolding total is_drawn
can_step p previous = is_drawn p && not (is_first p.current)
can_step p next = is_drawn p && not (is_last (total p) p.current)

unfoldable pub is_locked : Bool → Page → Bool
is_locked finished p = elim p.data_read [ none ↦ true | some d ↦ not d.is_open || finished ]

-- The page's event handlers and effects. A click needs the page to be drawn; the listener for keys
-- stands from the mount on.
unfoldable pub step : Bool → Page → Event → Page
unfolding go total can_step is_locked is_drawn
step finished p (loaded d) = record p { data_read = some d }
step finished p (load_failed why) = record p { error = some why }
step finished p (arrow typing d) =
    if typing then p else record p { current = go (total p) d p.current }
step finished p (stepped d) =
    if can_step p d then record p { current = go (total p) d p.current } else p
step finished p (picked i) =
    if is_drawn p && leb (i + 1) (total p) then record p { current = pos i } else p
step finished p finish_asked =
    if is_drawn p && not (is_locked finished p) then record p { finish_open = true } else p
step finished p finish_cancelled = record p { finish_open = false }
step finished p finish_done = record p { finish_open = false }
step finished p finish_refused = p

unfoldable pub steps : Bool → Page → List Event → Page
steps finished p [] = p
steps finished p (e ∷ rest) = steps finished (step finished p e) rest

-- `data.questions[current]`: nothing at `-1`.
abbrev pub at : List ℕ → ℤ → Option ℕ
at l (pos n) = get_elem? l n
at l (negsuc n) = none

unfoldable pub question : Page → Option ℕ
question p = elim p.data_read [ none ↦ none | some d ↦ at d.questions p.current ]

-- `Math.round((100 * answered.size) / total)`, and 0 with no questions.
unfoldable pub percent : ℕ → ℕ → ℕ
percent answered n = if n == 0 then 0 else (200 * answered + n) / (2 * n)

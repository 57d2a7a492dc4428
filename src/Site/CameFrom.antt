-- ===== src/Site/CameFrom.antt =====
-- web/src/lib/came-from.ts: the way back from a record. An address is the list of its characters'
-- codes. The regular expressions of `PLACES` are sequences of literal texts, `[^/]+` and choices; a
-- run of `[^/]+` is taken as long as it goes, which decides the match, since a slash or the end of the
-- pattern follows each of them. `encodeURIComponent` and the router are the browser's: the encoding is
-- an argument.
use codolympics.Prelude.{
  ℕ, Bool, true, false, not, ◌||◌, String, List, [], ◌∷◌, ◌++◌, Option, none, some, if◌then◌else◌,
  ◌==◌,
}
use Prim.Native.Char.{code}

abbrev pub codes : String → List ℕ
codes String.[] = []
codes (String.◌∷◌ c s) = code c ∷ codes s

pub record Place : Type 0 where
  pub href : List ℕ
  pub label : String

-- The parts of a pattern between `^` and `$`.
pub data Part : Type 0 where
  word : List ℕ → Part
  segment : Part
  one_of : List (List ℕ) → Part

-- What is left after a literal text.
unfoldable pub after_word : List ℕ → List ℕ → Option (List ℕ)
after_word [] s = some s
after_word (c ∷ w) [] = none
after_word (c ∷ w) (d ∷ s) = if c == d then after_word w s else none

-- What is left after the longest run of characters other than `/`.
unfoldable skip_segment : List ℕ → List ℕ
skip_segment [] = []
skip_segment (c ∷ s) = if c == b'/' then c ∷ s else skip_segment s

abbrev starts_segment : List ℕ → Bool
starts_segment [] = false
starts_segment (c ∷ s) = not (c == b'/')

-- The first of the texts that the address goes on with.
unfoldable after_choice : List (List ℕ) → List ℕ → Option (List ℕ)
unfolding after_word
after_choice [] s = none
after_choice (w ∷ rest) s = elim (after_word w s) [ none ↦ after_choice rest s | some t ↦ some t ]

unfoldable pub after_part : Part → List ℕ → Option (List ℕ)
unfolding after_word skip_segment after_choice
after_part (word w) s = after_word w s
after_part segment s = if starts_segment s then some (skip_segment s) else none
after_part (one_of ws) s = after_choice ws s

abbrev is_empty : List ℕ → Bool
is_empty [] = true
is_empty (c ∷ s) = false

-- `re.test(path)`.
unfoldable pub matches : List Part → List ℕ → Bool
unfolding after_part
matches [] s = is_empty s
matches (p ∷ rest) s = elim (after_part p s) [ none ↦ false | some t ↦ matches rest t ]

abbrev participants : Part
participants = word (codes "/admin/participants/")

abbrev pub places : List (List Part × String)
places =
    (word (codes "/admin/judge") ∷ [], "Judge monitor")
    ∷ (word (codes "/admin/submissions") ∷ [], "Submissions")
    ∷ (word (codes "/grade/hacks") ∷ [], "Hack attempts")
    ∷ (
      participants
          ∷ segment
          ∷ word (codes "/")
          ∷ one_of (codes "questions" ∷ codes "hacks" ∷ [])
          ∷ word (codes "/")
          ∷ segment
          ∷ [],
      "Timeline",
    )
    ∷ (participants ∷ segment ∷ [], "Participant")
    ∷ (word (codes "/admin/participants") ∷ [], "Participants")
    ∷ []

-- `href.split("?")[0]`.
unfoldable pub path_of : List ℕ → List ℕ
path_of [] = []
path_of (c ∷ s) = if c == b'?' then [] else c ∷ path_of s

-- `PLACES.find(([re]) => re.test(path))`.
unfoldable pub find_place : List (List Part × String) → List ℕ → Option String
unfolding matches
find_place [] path = none
find_place ((re, label) ∷ rest) path = if matches re path then some label else find_place rest path

unfoldable pub place_of : Option (List ℕ) → Option Place
unfolding find_place path_of
place_of none = none
place_of (some []) = none
place_of (some (c ∷ s)) = elim (find_place places (path_of (c ∷ s))) [
  | none ↦ none
  | some label ↦ some (record { href = c ∷ s; label = label })
]

-- `useCameFrom(fallback)`, `from` being `useSearchParams().get("from")`.
unfoldable pub came_from : Option (List ℕ) → Place → Place
unfolding place_of
came_from from fallback = elim (place_of from) [ none ↦ fallback | some p ↦ p ]

unfoldable has_question : List ℕ → Bool
has_question [] = false
has_question (c ∷ s) = c == b'?' || has_question s

-- `fromHere(href, from)`.
unfoldable from_here : (encode : List ℕ → List ℕ) → List ℕ → List ℕ → List ℕ
unfolding has_question
from_here encode href from =
    href ++ (if has_question href then codes "&" else codes "?") ++ codes "from=" ++ encode from

-- `useHere()`.
unfoldable pub here : (pathname search : List ℕ) → List ℕ
here pathname [] = pathname
here pathname (c ∷ s) = pathname ++ codes "?" ++ c ∷ s

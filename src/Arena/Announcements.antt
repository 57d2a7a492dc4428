-- ===== src/Arena/Announcements.antt =====
-- web/src/components/announcement-overlay.tsx: which announcements take the screen. `localStorage` is
-- the browser's: what it holds is an argument, `none` where there is nothing or it cannot be read, and
-- `stored` is what has been written to it.
use codolympics.Prelude.{
  ℕ, Bool, List, [], ◌∷◌, ◌++◌, Option, none, some, ltb, leb, max, keep, String, sort_by,
}

pub record Announcement : Type 0 where
  pub id : ℕ
  pub body_md : String
  pub created_at : String

pub record Overlay : Type 0 where
  pub queue : List Announcement
  pub seen : Option ℕ
  pub stored : Option ℕ

-- `announcements.reduce((m, a) => Math.max(m, a.id), 0)`.
unfoldable pub newest : List Announcement → ℕ
newest [] = 0
newest (a ∷ rest) = max a.id (newest rest)

-- `(a, b) => a.id - b.id` is at most zero.
abbrev pub by_id : Announcement → Announcement → Bool
by_id a b = leb a.id b.id

-- `announcements.filter((a) => a.id > seen).sort(…)`.
unfoldable pub fresh_ones : ℕ → List Announcement → List Announcement
unfolding sort_by
fresh_ones seen l = sort_by by_id (keep (λ (a : Announcement). ltb seen a.id) l)

-- The first effect of a session: anything already sent is history.
unfoldable pub catch_up : List Announcement → Overlay → Overlay
unfolding newest
catch_up l o =
    let n = newest l in
    let s : ℕ = elim o.stored [ none ↦ n | some k ↦ max k n ] in
    record o { seen = some s; stored = some s }

-- The new ones join the queue, and the mark moves to `top`; with none of them nothing is written.
unfoldable pub enqueue : List Announcement → ℕ → Overlay → Overlay
enqueue [] top o = o
enqueue (a ∷ rest) top o = record {
  queue = o.queue ++ a ∷ rest;
  seen = some top;
  stored = some top;
}

-- A later effect.
unfoldable pub take_new : ℕ → List Announcement → Overlay → Overlay
unfolding newest fresh_ones enqueue
take_new seen l o = enqueue (fresh_ones seen l) (newest l) o

-- The effect on `[announcements, userId]`, once both are known.
unfoldable pub effect : Overlay → List Announcement → Overlay
unfolding catch_up take_new
effect o l = elim o.seen [ none ↦ catch_up l o | some s ↦ take_new s l o ]

unfoldable pub effects : Overlay → List (List Announcement) → Overlay
effects o [] = o
effects o (l ∷ rest) = effects (effect o l) rest

-- `dismiss`: `queue.slice(1)`, and the announcement on the screen.
unfoldable dismiss : Overlay → Overlay
dismiss o = record o { queue = elim o.queue [ [] ↦ [] | a ∷ rest ↦ rest ] }

unfoldable pub current : Overlay → Option Announcement
current o = elim o.queue [ [] ↦ none | a ∷ rest ↦ some a ]

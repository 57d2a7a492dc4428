-- ===== src/Arena/Announced.antt =====
-- announcement-overlay.tsx: every announcement that arrives takes the screen, once and in order.
use codolympics.Prelude.{
  ℕ, ◌≤◌, ◌<◌, ◌≡◌, refl, sym, ap, subst, false, List, [], ◌∷◌, ◌++◌, Option, none, some, arith,
  ltb, keep, In, In-keep, keep-In, ◌↔◌, inl, inr, Bool-cases, ltb→lt, lt→ltb, IsSorted,
  In-sort_by_iff, sort_by-IsSorted,
}
use codolympics.Prelude.Lists.{here, there}
use mathlib.Core.List.{append-nil}
use codolympics.Arena.Announcements.{
  Announcement, Overlay, newest, by_id, fresh_ones, enqueue, catch_up, take_new, effect,
}

In-le-newest : (a : Announcement) (l : List Announcement) → In a l → a.id ≤ newest l
unfolding newest
In-le-newest a [] m = elim m [ ]
In-le-newest a (b ∷ l) (here e) =
    let f : b.id ≡ a.id = ap (λ (c : Announcement). c.id) e in omega arith
In-le-newest a (b ∷ l) (there m) = let h = In-le-newest a l m in omega arith

-- From `o` to `p`, announcements joined the queue in the order of their ids: exactly those of `l` above
-- `seen`; and the mark is now a number that is neither below `seen` nor below any id of `l`.
abbrev pub Takes : ℕ → List Announcement → Overlay → Overlay → Type 0
Takes seen l o p =
    (added : List Announcement) × (mark : ℕ) × (p.queue ≡ o.queue ++ added)
    × IsSorted by_id added
    × ((a : Announcement) → In a added ↔ (In a l × (seen < a.id)))
    × (p.seen ≡ some mark)
    × (seen ≤ mark)
    × ((a : Announcement) → In a l → a.id ≤ mark)

fresh_ones-In :
    (seen : ℕ) (l : List Announcement) (a : Announcement)
    → In a (fresh_ones seen l) ↔ (In a l × (seen < a.id))
unfolding fresh_ones
fresh_ones-In seen l a =
    let (from, into) = In-sort_by_iff by_id a (keep (λ (b : Announcement). ltb seen b.id) l) in
    (
      (λ m.
          let (h, t) = keep-In (λ (b : Announcement). ltb seen b.id) a l (from m) in
          (h, ltb→lt _ _ t)),
      (λ (h, t). into (In-keep (λ (b : Announcement). ltb seen b.id) a l h (lt→ltb _ _ t))),
    )

ltb-not : (n m : ℕ) → ltb n m ≡ false → m ≤ n
ltb-not n m h = ground arith

not-above : (seen : ℕ) (a : Announcement) → (seen < a.id → ⊥) → a.id ≤ seen
not-above seen a h = elim (Bool-cases (ltb seen a.id)) [
  | inl t ↦ elim (h (ltb→lt _ _ t)) [ ]
  | inr f ↦ ltb-not seen a.id f
]

newest-above :
    (seen : ℕ) (l : List Announcement) (a : Announcement) → In a l → seen < a.id → seen ≤ newest l
newest-above seen l a m h = let k = In-le-newest a l m in omega arith

enqueue-Takes :
    (seen : ℕ) (l : List Announcement) (o : Overlay) (f : List Announcement)
    → o.seen ≡ some seen
    → IsSorted by_id f
    → ((a : Announcement) → In a f ↔ (In a l × (seen < a.id)))
    → Takes seen l o (enqueue f (newest l) o)
unfolding enqueue
enqueue-Takes seen l o [] e r w = (
  [],
  seen,
  sym (append-nil o.queue),
  tt,
  w,
  e,
  omega arith,
  λ a m. not-above seen a (λ h. elim ((w a).1 (m, h)) [ ]),
)
enqueue-Takes seen l o (a ∷ rest) e r w =
    let (m, h) = (w a).0 (here refl) in
    (a ∷ rest, newest l, refl, r, w, refl, newest-above seen l a m h, λ b k. In-le-newest b l k)

-- An effect after the first one adds to the queue, in the order of their ids, exactly the
-- announcements whose ids are above the mark, and leaves a mark that is no lower than it was or than
-- any id it was given: so nothing it has passed is shown again.
pub take_new_lem :
    (seen : ℕ) (l : List Announcement) (o : Overlay)
    → o.seen ≡ some seen
    → Takes seen l o (effect o l)
unfolding effect take_new fresh_ones
take_new_lem seen l o e =
    subst
      (λ (k : Option ℕ). Takes seen l o (elim k [ none ↦ catch_up l o | some s ↦ take_new s l o ]))
      (sym e)
      (enqueue-Takes seen l o (fresh_ones seen l) e
        (sort_by-IsSorted by_id (λ x y h. ground arith) (λ x y z h k. ground arith)
          (keep (λ (b : Announcement). ltb seen b.id) l))
        (fresh_ones-In seen l))

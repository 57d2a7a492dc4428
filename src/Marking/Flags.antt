-- ===== src/Marking/Flags.antt =====
-- grade/page.tsx: when an answer counts as graded, and what becomes of a flag.
use codolympics.Prelude.{
  ℕ, ◌+◌, ◌≡◌, refl, ◌∙◌, subst, Bool, true, not, ◌||◌, String, List, [], ◌∷◌, ◌++◌, Option, none,
  some, sort_by, In, In-sort_by_iff, All, arith, inl, inr, ◌⊎◌,
}
use codolympics.Prelude.Lists.{here, there}
use codolympics.Rounds.Hacks.{or_first}
use codolympics.Marking.Queue.{
  Item, Question, Group, has_marks, state_of, settled, numbered, rows_of, unmarked, Posted, zero_of,
}
use codolympics.Marking.Card.{
  Card, Marks, Event, wrote_manual, wrote_explain, wrote_comment, flag, elapsed, later, save, fire,
  step, steps,
}

module _ {M : Type 0} where
  -- An answer counts as graded where it has every mark that the question asks for, or a flag.
  settled-state_of :
      (trim : String → String) (q : Question) (it : Item M)
      → settled (state_of trim q it) ≡ (has_marks q it || it.flagged)
  unfolding settled state_of
  settled-state_of trim q it = ground arith

  flagged_counts :
      (trim : String → String) (q : Question) (n : ℕ) (l : List (Item M))
      → All (λ (it : Item M). it.flagged ≡ true) l
      → unmarked (numbered trim q n l) ≡ 0
  unfolding unmarked numbered settled
  flagged_counts trim q n [] h = refl
  flagged_counts trim q n (it ∷ rest) (f, h) =
      let s : settled (state_of trim q it) ≡ true =
        settled-state_of trim q it ∙ ground (arith, f) in
      rw s (flagged_counts trim q (n + 1) rest h)

  All-of-In : (P : Item M → Type 0) (l : List (Item M)) → ((it : Item M) → In it l → P it) → All P l
  All-of-In P [] h = tt
  All-of-In P (x ∷ l) h = (h x (here refl), All-of-In P l (λ it m. h it (there m)))

  In-All : (P : Item M → Type 0) (l : List (Item M)) (it : Item M) → All P l → In it l → P it
  In-All P [] it h m = elim m [ ]
  In-All P (x ∷ l) it (p, h) (here e) = subst P e p
  In-All P (x ∷ l) it (p, h) (there m) = In-All P l it h m

  -- Where every answer of a question is flagged, none is left to grade, whatever marks it has or lacks.
  pub flagged_not_to_grade :
      (trim : String → String) (no_later : String → String → Bool) (g : Group M)
      → All (λ (it : Item M). it.flagged ≡ true) g.items
      → unmarked (rows_of trim no_later g) ≡ 0
  unfolding rows_of
  flagged_not_to_grade trim no_later g h =
      let le : Item M → Item M → Bool = λ a b. no_later a.participant_id b.participant_id in
      flagged_counts trim g.question 1 (sort_by le g.items) (
        All-of-In (λ (it : Item M). it.flagged ≡ true) (sort_by le g.items)
          (λ it m.
            In-All (λ (x : Item M). x.flagged ≡ true) g.items it h
              ((In-sort_by_iff le it g.items).0 m)))

  -- An answer with the marks that were posted for it.
  abbrev pub with_marks : Posted M → Item M → Item M
  with_marks p it = record it {
    manual_score = or_first p.manual_score it.manual_score;
    explain_score = or_first p.explain_score it.explain_score;
  }

  -- The zeros that "Mark all blanks 0" posts for an answer leave nothing of it to grade, whatever the
  -- question asks for.
  pub zeroed_lem :
      (trim : String → String) (zero : M) (q : Question) (it : Item M)
      → settled (state_of trim q (with_marks (zero_of zero q it) it)) ≡ true
  unfolding has_marks zero_of
  zeroed_lem trim zero q it =
      settled-state_of trim q (with_marks (zero_of zero q it) it) ∙ ground arith

-- A flag pressed while a mark waits to be saved is sent, and then the save that waited sends the answer as
-- it was flagged before, while the card goes on showing the new flag.
pub flag_undone :
    (c : Card) (v : String)
    → let d = steps c (wrote_manual v ∷ flag ∷ elapsed ∷ []) in
      (d.shown.flagged ≡ not c.shown.flagged)
      × (d.sent
          ≡ (c.sent ++ record (c.shown) { manual = v; flagged = not c.shown.flagged } ∷ [])
            ++ record (c.shown) { manual = v } ∷ [])
unfolding steps step later save fire
flag_undone c v = (refl, refl)

-- Every event but the flag.
abbrev pub IsTyping : Event → Type 0
IsTyping flag = ⊥
IsTyping _ = Unit

abbrev pub last : List Marks → Option Marks
last [] = none
last (m ∷ []) = some m
last (m ∷ n ∷ rest) = last (n ∷ rest)

last-snoc : (l : List Marks) (m : Marks) → last (l ++ m ∷ []) ≡ some m
last-snoc [] m = refl
last-snoc (x ∷ []) m = refl
last-snoc (x ∷ y ∷ rest) m = last-snoc (y ∷ rest) m

-- What is shown waits to be saved, or was sent last.
abbrev IsKept : Card → Type 0
IsKept c = (c.timer ≡ some c.shown) ⊎ ((c.timer ≡ none) × (last c.sent ≡ some c.shown))

fire_kept :
    (c : Card) → IsKept c → ((fire c).timer ≡ none) × (last (fire c).sent ≡ some (fire c).shown)
unfolding fire
fire_kept c (inl e) = rw (e, fire) (refl, last-snoc c.sent c.shown)
fire_kept c (inr (e, h)) = rw (e, fire) (e, h)

step-IsKept : (c : Card) (e : Event) → IsTyping e → IsKept c → IsKept (step c e)
unfolding step later
step-IsKept c (wrote_manual v) i h = inl refl
step-IsKept c (wrote_explain v) i h = inl refl
step-IsKept c (wrote_comment v) i h = inl refl
step-IsKept c flag i h = absurd i
step-IsKept c elapsed i h = inr (fire_kept c h)

steps-IsKept : (c : Card) (l : List Event) → All IsTyping l → IsKept c → IsKept (steps c l)
unfolding steps
steps-IsKept c [] a h = h
steps-IsKept c (e ∷ rest) (i, a) h = steps-IsKept (step c e) rest a (step-IsKept c e i h)

-- Once something has been typed, and no flag is pressed, what is sent last when the timer runs out is
-- what the card shows, all its marks together.
pub typed_sent :
    (c : Card) (v : String) (l : List Event)
    → All IsTyping l
    → let d = steps c (wrote_manual v ∷ l) in
      (last (step d elapsed).sent ≡ some (step d elapsed).shown)
unfolding steps step later
typed_sent c v l a =
    (fire_kept (steps (step c (wrote_manual v)) l)
      (steps-IsKept (step c (wrote_manual v)) l a (inl refl))).1

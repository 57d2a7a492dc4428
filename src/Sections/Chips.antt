-- ===== src/Sections/Chips.antt =====
-- phase1-lists.tsx: the numbers on the chips of the state.
use codolympics.Prelude.{◌+◌, ◌≡◌, refl, List, [], ◌∷◌, length, arith, if◌then◌else◌}
use codolympics.Authoring.Puzzle.{QuestionState, draft, ready, live, void}
use codolympics.Sections.Lists.{only, count, same_state}

module _ {Q : Type 0} (state : Q → QuestionState) where
  count_cons :
      (t : QuestionState) (q : Q) (rest : List Q)
      → count state (only t) (q ∷ rest)
        ≡ (if same_state (state q) t then 1 else 0) + count state (only t) rest
  unfolding count
  count_cons t q rest = ground arith

  -- A state is one of the four.
  one_state :
      (s : QuestionState)
      → ((if same_state s draft then 1 else 0)
          + (if same_state s ready then 1 else 0)
          + (if same_state s live then 1 else 0)
          + (if same_state s void then 1 else 0))
        ≡ 1
  unfolding same_state
  one_state draft = refl
  one_state ready = refl
  one_state live = refl
  one_state void = refl

  -- The numbers on the four chips of a state add up to the number on the chip of all.
  pub counts_add :
      (rows : List Q)
      → count state (only draft) rows
          + count state (only ready) rows
          + count state (only live) rows
          + count state (only void) rows
        ≡ length rows
  unfolding count
  counts_add [] = refl
  counts_add (q ∷ rest) = omega (
    arith,
    counts_add rest,
    one_state (state q),
    count_cons draft q rest,
    count_cons ready q rest,
    count_cons live q rest,
    count_cons void q rest,
  )

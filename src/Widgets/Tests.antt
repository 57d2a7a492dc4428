-- ===== src/Widgets/Tests.antt =====
-- The lists and clocks on concrete data.
use codolympics.Prelude.{ℕ, List, [], ◌∷◌}

abbrev five : List ℕ
five = 1 ∷ 2 ∷ 3 ∷ 4 ∷ 5 ∷ []

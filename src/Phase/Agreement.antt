-- ===== src/Phase/Agreement.antt =====
-- The rail, the dashboard, the navigation and the boards say the same thing about a phase.
use codolympics.Prelude.{
  ℕ, ◌≡◌, refl, Bool, true, false, String, List, [], ◌∷◌, ◌++◌, Option, none, some, arith,
  if◌then◌else◌, str_eq, str_eq_true, includes, Bool-cases, inl, inr, subst, sym, ◌⊎◌,
}
use codolympics.Phase.{Contest}
use codolympics.Phase.Boards.{board_shown}
use codolympics.Phase.Screens.{
  Screen, section_a, section_b, reviewing, auction_floor, coding_round, ended, screen_of_phase,
  contest_page,
}
use codolympics.Phase.Rail.{here}
use codolympics.Phase.Nav.{nav, shopping}

-- A property of a text holds if it holds at a given one and at every other.
pub at_text : (P : String → Type 0) (k p : String) → P k → (str_eq p k ≡ false → P p) → P p
at_text P k p yes_case no_case = elim (Bool-cases (str_eq p k)) [
  | inl e ↦ subst P (sym (str_eq_true p k e)) yes_case
  | inr e ↦ no_case e
]

-- The step of the day that a screen belongs to.
abbrev pub screen_step : Screen → ℕ
screen_step section_a = 1
screen_step section_b = 2
screen_step reviewing = 2
screen_step auction_floor = 3
screen_step coding_round = 4
screen_step ended = 5
screen_step _ = 0

abbrev Agree : String → Type 0
Agree p = (here p).step ≡ screen_step (screen_of_phase p)

-- In every phase, known or not, the rail stands at the step of the screen that the dashboard shows.
pub here-screen : (p : String) → (here p).step ≡ screen_step (screen_of_phase p)
unfolding here screen_of_phase
here-screen p = at_text Agree "registration" p refl λ a. at_text Agree "p1_puzzles" p refl λ b.
    at_text Agree "p1_hacking" p refl λ c. at_text Agree "review" p refl λ d.
      at_text Agree "auction1" p refl λ e. at_text Agree "coding1" p refl λ f.
        at_text Agree "auction2" p refl λ g.
          at_text Agree "final" p refl
            λ h. at_text Agree "ended" p refl λ i. rw (a, b, c, d, e, f, g, h, i)

-- What the engine says of `in_phase2`: it is set in the auctions and the coding rounds.
abbrev phase2_phases : List String
phase2_phases = "auction1" ∷ "coding1" ∷ "auction2" ∷ "final" ∷ []

abbrev pub IsConsistent : Contest → Type 0
IsConsistent c = includes phase2_phases c.phase ≡ true → c.in_phase2 ≡ true

abbrev Claim : String → Type 0
Claim p =
    (screen_of_phase p ≡ auction_floor) ⊎ (screen_of_phase p ≡ coding_round)
    → includes phase2_phases p ≡ true

screen-auction_or_coding :
    (p : String)
    → (screen_of_phase p ≡ auction_floor) ⊎ (screen_of_phase p ≡ coding_round)
    → includes phase2_phases p ≡ true
unfolding screen_of_phase
screen-auction_or_coding p =
    at_text Claim "auction1" p (λ _. refl)
      λ a.
        at_text Claim "coding1" p (λ _. refl)
          λ b.
            at_text Claim "auction2" p (λ _. refl)
              λ c. at_text Claim "final" p (λ _. refl) λ d h. ground arith

-- Where the engine says `in_phase2` in the auctions and the coding rounds, Phase 2 is closed to
-- anyone who was not selected: only one whose `me.advanced` is set is shown the auction floor or a
-- coding round.
pub phase2_closed :
    (c : Contest) (advanced : Option Bool)
    → IsConsistent c
    → (contest_page (some c) advanced ≡ auction_floor)
      ⊎ (contest_page (some c) advanced ≡ coding_round)
    → advanced ≡ some true
unfolding contest_page
phase2_closed c none k h = ground (arith, screen-auction_or_coding c.phase)
phase2_closed c (some false) k h = ground (arith, screen-auction_or_coding c.phase)
phase2_closed c (some true) k h = refl

-- The navigation is the contest screen, then the leaderboard exactly when a board is shown, then the
-- marketplace exactly when a participant is in Phase 2.
nav_lem :
    (role : String) (c : Contest)
    → nav role c
      ≡ "/dashboard"
        ∷ ((if board_shown c then "/leaderboard" ∷ [] else [])
            ++ (if shopping role c then "/marketplace" ∷ [] else []))
unfolding nav
nav_lem role c = elim (Bool-cases (shopping role c)) [
  | inl s ↦ elim (Bool-cases (board_shown c)) [ inl b ↦ rw (s, b) | inr b ↦ rw (s, b) ]
  | inr s ↦ elim (Bool-cases (board_shown c)) [ inl b ↦ rw (s, b) | inr b ↦ rw (s, b) ]
]

-- ===== src/Sections/Selected.antt =====
-- phase1-lists.tsx, `Review`: who is selected by the top N, and who stays selected.
use codolympics.Prelude.{
  ℕ, ◌≤◌, ◌≡◌, refl, sym, ap, subst, Bool, true, false, not, ◌↔◌, inl, inr, String, List, [], ◌∷◌,
  Option, none, some, if◌then◌else◌, All, In, In-keep, keep-In, In-map, map-In, In-append_left,
  Bool-cases, keep, map, includes, ◌==◌, str_eq, str_eq_true, str_eq_sym, if_ind, arith,
}
use codolympics.Prelude.Lists.{here, there}
use codolympics.Sections.Lists.{distinct}
use codolympics.Sections.Review.{
  Standing, Page, id_of, has_advanced, add, delete, toggle, advanced_ids, eligible, within, top,
  loaded, clicked, picked, confirmed, click, step, steps,
}

distinct-In : (x : String) (l : List String) → In x (distinct l) → In x l
unfolding distinct
distinct-In x [] m = m
distinct-In x (y ∷ l) (here e) = here e
distinct-In x (y ∷ l) (there m) =
    there (distinct-In x l ((keep-In (λ (z : String). not (str_eq z y)) x (distinct l) m).0))

In-distinct : (x : String) (l : List String) → In x l → In x (distinct l)
unfolding distinct
In-distinct x [] m = m
In-distinct x (y ∷ l) (here e) = here e
In-distinct x (y ∷ l) (there m) = elim (Bool-cases (str_eq x y)) [
  | inl t ↦ here (sym (str_eq_true x y t))
  | inr f ↦
      there
        (In-keep (λ (z : String). not (str_eq z y)) x (distinct l) (In-distinct x l m) (ap not f))
]

-- The row that puts an id among the top `n`.
abbrev pub IsAmong : ℕ → List Standing → String → Type 0
IsAmong n rows id =
    (r : Standing) × In r rows
    × (r.disqualified ≡ false)
    × (1 ≤ r.rank)
    × (r.rank ≤ n)
    × (id_of r ≡ id)

top-IsAmong : (n : ℕ) (rows : List Standing) (id : String) → In id (top n rows) → IsAmong n rows id
unfolding top eligible within
top-IsAmong n rows id m =
    let (r, k, e) = map-In id_of id (keep (within n) (eligible rows)) (distinct-In id _ m) in
    let (l, w) = keep-In (within n) r (eligible rows) k in
    let (i, q) = keep-In (λ (r : Standing). not r.disqualified) r rows l in
    (r, i, ground arith, ground arith, ground arith, e)

IsAmong-top : (n : ℕ) (rows : List Standing) (id : String) → IsAmong n rows id → In id (top n rows)
unfolding top eligible within
IsAmong-top n rows id (r, i, q, a, b, e) =
    subst (λ x. In x (top n rows)) e
      (In-distinct (id_of r) _ (
        In-map id_of r _ (
          In-keep (within n) r (eligible rows)
            (In-keep (λ (r : Standing). not r.disqualified) r rows i (ap not q)) (ground arith))))

picked_chosen :
    (p : Page) (rows : List Standing) (n : ℕ)
    → p.rows ≡ some rows
    → 1 ≤ n
    → (step p (picked n)).chosen ≡ top n rows
unfolding step
picked_chosen p rows n e h =
    let f : (n == 0) ≡ false = ground arith in
    subst
      (λ (o : Option (List Standing)).
        let q : Page = elim o [
          | none ↦ p
          | some l ↦ if n == 0 then p else record p { chosen = top n l }
        ] in
        q.chosen ≡ top n rows)
      (sym e) (rw f refl)

-- "Select top N" leaves selected exactly those whose rank is from 1 to N and who are not disqualified:
-- everyone who shares rank N among them, and nobody who was ticked before.
pub picked_iff :
    (p : Page) (rows : List Standing) (n : ℕ) (id : String)
    → p.rows ≡ some rows
    → 1 ≤ n
    → In id (step p (picked n)).chosen ↔ IsAmong n rows id
unfolding step
picked_iff p rows n id e h =
    subst (λ (l : List String). In id l ↔ IsAmong n rows id) (sym (picked_chosen p rows n e h))
      (top-IsAmong n rows id, IsAmong-top n rows id)

-- A click on the row of another participant.
abbrev pub IsOther : Standing → Standing → Type 0
IsOther s r = (r.disqualified ≡ false) → str_eq r.participant_id s.participant_id ≡ false

advanced_has : (s : Standing) → s.advanced ≡ some true → has_advanced s ≡ true
unfolding has_advanced
advanced_has s h =
    subst (λ (o : Option Bool). (elim o [ none ↦ false | some b ↦ b ]) ≡ true) (sym h) refl

toggle-keeps :
    (x id : String) (on : Bool) (l : List String)
    → str_eq id x ≡ false
    → In x l
    → In x (toggle id on l)
unfolding toggle add delete
toggle-keeps x id true l f m =
    if_ind (In x) (includes l id) _ _ (λ _. m) (λ _. In-append_left x l (id ∷ []) m)
toggle-keeps x id false l f m =
    In-keep (λ (y : String). not (str_eq y id)) x l m (ap not (str_eq_sym id x f))

click-keeps :
    (s r : Standing) (p : Page)
    → IsOther s r
    → In s.participant_id p.chosen
    → In s.participant_id (click r p).chosen
unfolding click
click-keeps s r p o m =
    if_ind (λ (q : Page). In s.participant_id q.chosen) r.disqualified _ _ (λ _. m)
      (λ f. toggle-keeps s.participant_id r.participant_id _ p.chosen (o f) m)

clicks-keep :
    (s : Standing) (p : Page) (clicks : List Standing)
    → All (IsOther s) clicks
    → In s.participant_id p.chosen
    → In s.participant_id (steps p (map clicked clicks)).chosen
unfolding steps step
clicks-keep s p [] h m = m
clicks-keep s p (r ∷ rest) (o, h) m = clicks-keep s (click r p) rest h (click-keeps s r p o m)

-- Someone who had been selected and was disqualified since is selected again by the page as it loads, and
-- whatever boxes are clicked, where no other row has the same id, is sent with the selection: the one box
-- that would take the id out is disabled.
pub disqualified_stays :
    (p : Page) (rows clicks : List Standing) (s : Standing) (reason : String)
    → In s rows
    → s.disqualified ≡ true
    → s.advanced ≡ some true
    → All (IsOther s) clicks
    → let q = steps (step p (loaded rows)) (map clicked clicks) in
      ((step q (confirmed reason)).sent
        ≡ record { participant_ids = q.chosen; reason = reason } ∷ q.sent)
      × In s.participant_id q.chosen
unfolding step advanced_ids
disqualified_stays p rows clicks s reason m d a h = (
  refl,
  clicks-keep s (step p (loaded rows)) clicks h (
      In-distinct s.participant_id (advanced_ids rows) (
        In-map id_of s (keep has_advanced rows)
          (In-keep has_advanced s rows m (advanced_has s a)))),
)

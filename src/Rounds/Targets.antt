-- ===== src/Rounds/Targets.antt =====
-- section-b.tsx: what an attempt is made against when the section is re-read.
use codolympics.Prelude.{
  ◌≡◌, refl, sym, ap, ◌∙◌, subst, inl, inr, Bool, true, false, String, List, [], ◌∷◌, Option, none,
  some, Option-cases, ◌==◌, ==_iff, find, In, if_ind, Bool-cases, arith,
}
use codolympics.Prelude.Lists.{here, there}
use codolympics.Rounds.Hacks.{
  Solution, Question, Data, Page, first, or_first, question, solution, is_locked, in_flight, Posted,
  submit, can_submit, clicked,
}

module _ {A : Type 0} where
  some-is : {a b : A} → some a ≡ some b → a ≡ b
  some-is e = cc

  none-is : {a : A} → none ≡ some a → ⊥
  none-is e = cc

  pub find-In : (p : A → Bool) (l : List A) (a : A) → find p l ≡ some a → In a l × (p a ≡ true)
  find-In p [] a e = absurd cc
  find-In p (x ∷ l) a e =
      if_ind (λ (o : Option A). o ≡ some a → In a (x ∷ l) × (p a ≡ true)) (p x) (some x) (find p l)
        (λ t q. (here (some-is q), subst (λ y. p y ≡ true) (some-is q) t))
        (λ _ q. let (m, t) = find-In p l a q in (there m, t)) e

  pub find_finds :
      (p : A → Bool) (l : List A) (a : A) → In a l → p a ≡ true → (b : A) × (find p l ≡ some b)
  find_finds p [] a m t = elim m [ ]
  find_finds p (x ∷ l) a m t = elim (Bool-cases (p x)) [
    | inl y ↦ (x, rw y refl)
    | inr n ↦ elim m [
      | here e ↦ let y = subst (λ y. p y ≡ true) (sym e) t in absurd cc
      | there k ↦ let (b, q) = find_finds p l a k t in (b, rw n q)
    ]
  ]

  first-In : (l : List A) (a : A) → first l ≡ some a → In a l
  first-In [] a e = absurd cc
  first-In (x ∷ l) a e = here (some-is e)

  or_first-In :
      (p : A → Bool) (l : List A) (a : A) → or_first (find p l) (first l) ≡ some a → In a l
  or_first-In p l a e = elim (Option-cases (find p l)) [
    | inl n ↦ first-In l a (ap (λ o. or_first o (first l)) (sym n) ∙ e)
    | inr (b, q) ↦ (find-In p l a (q ∙ (ap (λ o. or_first o (first l)) (sym q) ∙ e))).0
  ]

  find-none : (l : List A) → find (λ _. false) l ≡ none
  find-none [] = refl
  find-none (x ∷ l) = find-none l

-- The question that was chosen stays open through any re-read of the section that still has it, and
-- no other with its id, wherever it now stands in the order.
pub question-held :
    (l : List Question) (q : Question)
    → In q l
    → ((r : Question) → In r l → r.id ≡ q.id → r ≡ q)
    → question (some q.id) l ≡ some q
unfolding question
question-held l q m once =
    let (r, f) = find_finds (λ (x : Question). x.id == q.id) l q m ((==_iff q.id q.id).1 refl) in
    let (k, t) = find-In (λ (x : Question). x.id == q.id) l r f in
    let same : r ≡ q = once r k ((==_iff r.id q.id).0 t) in
    ap (λ o. or_first o (first l)) f ∙ ap (λ x. some x) same

submit_of :
    (preferred : Option String) (d : Data) (p : Page) (q : Question) (s : Solution)
    → question p.current_id d.questions ≡ some q
    → solution preferred q ≡ some s
    → submit preferred d p
      ≡ some (record { question_id = q.id; solution_id = s.id; input = p.input })
unfolding submit
submit_of preferred d p q s e f = rw (e, submit) (rw f refl)

submit-none :
    (preferred : Option String) (d : Data) (p : Page)
    → question p.current_id d.questions ≡ none
    → submit preferred d p ≡ none
unfolding submit
submit-none preferred d p e = rw (e, submit) refl

submit_unsolved :
    (preferred : Option String) (d : Data) (p : Page) (q : Question)
    → question p.current_id d.questions ≡ some q
    → solution preferred q ≡ none
    → submit preferred d p ≡ none
unfolding submit
submit_unsolved preferred d p q e f = rw (e, submit) (rw f refl)

-- What a post is for.
abbrev pub IsFor : Option String → Data → Page → Posted → Type 0
IsFor preferred d p b =
    (q : Question) × (s : Solution) × In q d.questions
    × In s q.solutions
    × (b ≡ record { question_id = q.id; solution_id = s.id; input = p.input })

submit-IsFor :
    (preferred : Option String) (d : Data) (p : Page) (b : Posted)
    → submit preferred d p ≡ some b
    → IsFor preferred d p b
unfolding question solution
submit-IsFor preferred d p b e = elim (Option-cases (question p.current_id d.questions)) [
  | inl n ↦ let h = submit-none preferred d p n in absurd cc
  | inr (q, f) ↦ elim (Option-cases (solution preferred q)) [
    | inl n ↦ let h = submit_unsolved preferred d p q f n in absurd cc
    | inr (s, g) ↦ (
      q,
      s,
      or_first-In _ d.questions q f,
      or_first-In _ q.solutions s g,
      some-is (sym e ∙ submit_of preferred d p q s f g),
    )
  ]
]

can_submit_flags :
    (has_text : String → Bool) (finished : Bool) (d : Data) (p : Page)
    → can_submit has_text finished d p ≡ true
    → (d.is_open ≡ true)
      × (finished ≡ false)
      × (p.busy ≡ false)
      × (in_flight d.attempts ≡ false)
      × (has_text p.input ≡ true)
unfolding can_submit is_locked
can_submit_flags has_text finished d p h = ground arith

-- What is posted is for a question of the section and one of that question's own solutions, with the
-- input as typed, and only while the section is open and not finished, no request is out, no attempt is
-- being judged and the input is not blank.
pub clicked_lem :
    (has_text : String → Bool) (finished : Bool) (preferred : Option String) (d : Data) (p : Page)
    (b : Posted)
    → clicked has_text finished preferred d p ≡ some b
    → IsFor preferred d p b
      × (d.is_open ≡ true)
      × (finished ≡ false)
      × (p.busy ≡ false)
      × (in_flight d.attempts ≡ false)
      × (has_text p.input ≡ true)
unfolding clicked submit
clicked_lem has_text finished preferred d p b e =
    elim (Bool-cases (can_submit has_text finished d p)) [
      | inl t ↦
          let (o, f, u, i, h) = can_submit_flags has_text finished d p t in
          (submit-IsFor preferred d p b (sym (rw t refl) ∙ e), o, f, u, i, h)
      | inr f ↦ absurd (none-is (sym (rw f refl) ∙ e))
    ]

-- Before a question is chosen none is held: where a re-read puts another question first, an input typed
-- for the one on the screen is posted for the other.
pub unchosen_moves :
    (preferred : Option String) (p : Page) (before after : Data) (q r : Question) (s t : Solution)
    → p.current_id ≡ none
    → first before.questions ≡ some q
    → first after.questions ≡ some r
    → solution preferred q ≡ some s
    → solution preferred r ≡ some t
    → (submit preferred before p
        ≡ some (record { question_id = q.id; solution_id = s.id; input = p.input }))
      × (submit preferred after p
          ≡ some (record { question_id = r.id; solution_id = t.id; input = p.input }))
unfolding submit question
unchosen_moves preferred p before after q r s t c b a sq sr = (
  submit_of preferred before p q s
      (rw c (ap (λ o. or_first o (first before.questions)) (find-none before.questions) ∙ b)) sq,
  submit_of preferred after p r t
      (rw c (ap (λ o. or_first o (first after.questions)) (find-none after.questions) ∙ a)) sr,
)

-- ===== src/Desk/Keys.antt =====
-- question/[id]/page.tsx: what the Submit button guards against and its key does not.
use codolympics.Prelude.{
  ℕ, ◌+◌, ◌≡◌, ◌≢◌, refl, Bool, ◌==◌, ==_iff, str_eq_true, is_some, true, false, not, ◌&&◌, ◌||◌,
  List, [], ◌∷◌, str_eq, All, arith, if_ind, sym, ap, ◌∙◌, Bool-cases, ◌⊎◌, inl, inr,
}
use text.Mathlib.TextEquality.{eq_iff}
use codolympics.Desk.Submitting.{
  Entry, Page, Event, following, in_flight, clicked, keyed, run_clicked, run_keyed, failed,
  run_ended, answered, can_submit, submit, run_samples, step, steps,
}

both : (a b : Bool) → (a && b) ≡ true → (a ≡ true) × (b ≡ true)
both a b h = ground arith

neither : (a b : Bool) → b ≡ false → (a && b) ≡ false
neither a b h = ground arith

-- An event that neither presses the key nor ends a submission.
abbrev pub IsQuiet : Event → Type 0
IsQuiet keyed = ⊥
IsQuiet failed = ⊥
IsQuiet (answered history cooldown) = ⊥
IsQuiet _ = Unit

-- Not yet, with the button as it was; or once, by a button that was free and is not since.
abbrev Once : (p q : Page) → Type 0
Once p q =
    ((q.posted ≡ p.posted) × (can_submit q ≡ can_submit p))
    ⊎ ((q.posted ≡ p.posted + 1) × (can_submit p ≡ true) × (can_submit q ≡ false))

busy_cannot : (p : Page) → can_submit (record p { busy = true; posted = p.posted + 1 }) ≡ false
unfolding can_submit
busy_cannot p = ground arith

running_same :
    (p : Page) (b : Bool) (n : ℕ) → can_submit (record p { running = b; runs = n }) ≡ can_submit p
unfolding can_submit
running_same p b n = refl

click-Once : (p q : Page) → Once p q → Once p (step q clicked)
unfolding step submit
click-Once p q h = elim (Bool-cases (q.has_question && can_submit q)) [
  | inl t ↦
      let (has, can) = both q.has_question (can_submit q) t in
      rw (t, has)
        (elim h [
          | inl (e, c) ↦ inr (ap (λ n. n + 1) e, sym c ∙ can, busy_cannot q)
          | inr (e, a, b) ↦ absurd cc
        ])
  | inr f ↦ rw f h
]

run_samples-Once : (p q : Page) → Once p q → Once p (run_samples q)
unfolding can_submit run_samples
run_samples-Once p q h =
    if_ind (Once p) (not q.has_question || q.running) q
      (record q { running = true; runs = q.runs + 1 }) (λ _. h) (λ _. h)

step-Once : (p q : Page) (e : Event) → IsQuiet e → Once p q → Once p (step q e)
unfolding step can_submit
step-Once p q clicked i h = click-Once p q h
step-Once p q keyed i h = absurd i
step-Once p q run_clicked i h =
    if_ind (Once p) (q.has_question && not (q.running || str_eq q.status "void")) (run_samples q) q
      (λ _. run_samples-Once p q h) (λ _. h)
step-Once p q run_keyed i h = run_samples-Once p q h
step-Once p q failed i h = absurd i
step-Once p q run_ended i h = h
step-Once p q (answered l n) i h = absurd i

steps-Once : (p q : Page) (l : List Event) → All IsQuiet l → Once p q → Once p (steps q l)
unfolding steps
steps-Once p q [] a h = h
steps-Once p q (e ∷ rest) (i, a) h = steps-Once p (step q e) rest a (step-Once p q e i h)

-- The page is free to submit: the newest attempt, if there is one, is judged as far as the page knows, no
-- cooldown runs, no request is out, the contest has not ended and the question is not void.
abbrev pub IsFree : Page → Type 0
IsFree p =
    ((p.history ≡ [])
      ⊎ ((e : Entry) × (older : List Entry) × (p.history ≡ e ∷ older)
          × (e.judgement_state ≡ "done"))
      ⊎ (p.stage ≡ "done"))
    × (p.cooldown ≡ 0)
    × (p.busy ≡ false)
    × (p.phase ≢ "ended")
    × (p.status ≢ "void")

judged_list :
    (l : List Entry) (done : Bool)
    → (is_some (following l) && not done) ≡ false
    → (l ≡ [])
      ⊎ ((e : Entry) × (older : List Entry) × (l ≡ e ∷ older) × (e.judgement_state ≡ "done"))
      ⊎ (done ≡ true)
unfolding following
judged_list [] done h = inl refl
judged_list (e ∷ older) true h = inr (inr refl)
judged_list (e ∷ older) false h =
    inr (inl (e, older, refl, (eq_iff e.judgement_state "done").0 (ground arith)))

not_flying :
    (p : Page)
    → in_flight p ≡ false
    → (p.history ≡ [])
      ⊎ ((e : Entry) × (older : List Entry) × (p.history ≡ e ∷ older)
          × (e.judgement_state ≡ "done"))
      ⊎ (p.stage ≡ "done")
unfolding in_flight
not_flying p h = elim (judged_list p.history (str_eq p.stage "done") h) [
  | inl n ↦ inl n
  | inr (inl e) ↦ inr (inl e)
  | inr (inr d) ↦ inr (inr (str_eq_true p.stage "done" d))
]

all_guards :
    (flying idle busy ended void : Bool)
    → (not flying && idle && not busy && not ended && not void) ≡ true
    → (flying ≡ false) × (idle ≡ true) × (busy ≡ false) × (ended ≡ false) × (void ≡ false)
all_guards flying idle busy ended void h = ground arith

can_submit-IsFree : (p : Page) → can_submit p ≡ true → IsFree p
unfolding can_submit
can_submit-IsFree p h =
    let (f, c, b, e, v) =
      all_guards (in_flight p) (p.cooldown == 0) p.busy (str_eq p.phase "ended")
        (str_eq p.status "void") h in
    (
      not_flying p f,
      (==_iff p.cooldown 0).0 c,
      b,
      (λ q. ground (arith, eq_iff p.phase "ended")),
      (λ q. ground (arith, eq_iff p.status "void")),
    )

-- However often the buttons are clicked and runs are asked for and end, no submission is posted, or
-- exactly one: that one only from a page on which no attempt is being judged as far as the page knows, no
-- cooldown runs, no request is out, the contest has not ended and the question is not void. Answers and
-- failures of the submission itself are left out, and so is its key.
pub clicks_once :
    (p : Page) (l : List Event)
    → All IsQuiet l
    → ((steps p l).posted ≡ p.posted) ⊎ (((steps p l).posted ≡ p.posted + 1) × IsFree p)
clicks_once p l a = elim (steps-Once p p l a (inl (refl, refl))) [
  | inl (e, c) ↦ inl e
  | inr (e, c, d) ↦ inr (e, can_submit-IsFree p c)
]

no_click : (p : Page) → can_submit p ≡ false → step p clicked ≡ p
unfolding step
no_click p c = rw (neither p.has_question (can_submit p) c) refl

-- Ctrl+Enter posts a submission on every press, whatever the button guards against: on a page where the
-- button posts nothing, two presses post two.
pub keys_unguarded :
    (p : Page)
    → p.has_question ≡ true
    → can_submit p ≡ false
    → ((steps p (clicked ∷ clicked ∷ [])).posted ≡ p.posted)
      × ((steps p (keyed ∷ keyed ∷ [])).posted ≡ p.posted + 2)
unfolding steps step submit
keys_unguarded p h c = (
  ap (λ (q : Page). (step q clicked).posted) (no_click p c)
      ∙ ap (λ (q : Page). q.posted) (no_click p c),
  rw h (omega arith),
)

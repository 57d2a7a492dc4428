-- ===== src/Desk/Kept.antt =====
-- question/[id]/page.tsx: the editor against a map from languages to texts.
use codolympics.Prelude.{
  ℕ, ◌≡◌, refl, sym, ap, ◌∙◌, subst, true, String, List, [], ◌∷◌, ◌++◌, Option, some, if◌then◌else◌,
  or_else, str_eq, str_eq_true, Bool-cases, Option-cases, inl, inr,
}
use codolympics.Desk.Drafts.{
  Map, lookup, assign, template, Desk, Event, loaded, typed, switched, reset, elapsed, accepted,
  rejected, load, on_change, switch, fire, step, steps,
}

lookup-assign :
    {A : Type 0} (k : String) (v : A) (m : Map A) (l : String)
    → lookup (assign k v m) l ≡ (if str_eq k l then some v else lookup m l)
unfolding lookup assign
lookup-assign k v [] l = refl
lookup-assign k v ((n, w) ∷ rest) l = elim (Bool-cases (str_eq n k)) [
  | inl t ↦ elim (Bool-cases (str_eq k l)) [
    | inl y ↦ rw t (rw y refl)
    | inr f ↦ rw t (
        rw f (
          subst (λ x. lookup rest l ≡ (if str_eq x l then some w else lookup rest l))
            (sym (str_eq_true n k t)) (rw f refl)))
  ]
  | inr f ↦ rw f (elim (Bool-cases (str_eq n l)) [
    | inl y ↦ rw y (elim (Bool-cases (str_eq k l)) [
      | inl z ↦
          let same : str_eq n k ≡ true =
            subst (λ x. str_eq n x ≡ true) (sym (str_eq_true k l z)) y in
          absurd cc
      | inr g ↦ rw g refl
    ])
    | inr g ↦ rw g (lookup-assign k v rest l)
  ])
]

-- The code of each language: the editor's for the one that is open.
abbrev pub code_of : Desk → String → Option String
code_of s l = if str_eq s.language l then some s.source else lookup s.code l

-- A language that is open and a text for some of the languages.
pub record Board : Type 0 where
  pub language : String
  pub text : String → Option String

-- What an event does to it: a text is written for the open language, or another language is opened, with
-- its text, else its template, else nothing.
abbrev write : String → Board → Board
write t b = record b { text = λ l. if str_eq b.language l then some t else b.text l }

abbrev open_at : String → Board → Board
open_at v b = record {
  language = v;
  text = λ l. if str_eq v l then some (or_else (b.text v) (or_else (template v) "")) else b.text l;
}

abbrev pub expected : Board → Event → Board
expected b (loaded drafts) = b
expected b (typed t at) = write t b
expected b (switched v) = open_at v b
expected b (reset at) = write (or_else (template b.language) "") b
expected b elapsed = b
expected b accepted = b
expected b rejected = b

abbrev pub expected_after : Board → List Event → Board
expected_after b [] = b
expected_after b (e ∷ rest) = expected_after (expected b e) rest

abbrev pub Shows : Desk → Board → Type 0
Shows s b = (s.language ≡ b.language) × ((l : String) → code_of s l ≡ b.text l)

on_change-Shows :
    (t : String) (at : ℕ) (s : Desk) (b : Board) → Shows s b → Shows (on_change t at s) (write t b)
unfolding on_change
on_change-Shows t at s b (e, h) = (
  e,
  λ l.
      subst (λ n. code_of (on_change t at s) l ≡ (if str_eq n l then some t else b.text l)) e
        (elim (Bool-cases (str_eq s.language l)) [
          | inl y ↦ rw y refl
          | inr f ↦ rw f (lookup-assign s.language t s.code l ∙ (rw f (sym (rw f refl) ∙ h l)))
        ]),
)

kept_code : (s : Desk) (l : String) → lookup (assign s.language s.source s.code) l ≡ code_of s l
kept_code s l = lookup-assign s.language s.source s.code l

switch-Shows : (v : String) (s : Desk) (b : Board) → Shows s b → Shows (switch v s) (open_at v b)
unfolding switch
switch-Shows v s b (e, h) = (
  refl,
  λ l. elim (Bool-cases (str_eq v l)) [
    | inl y ↦ rw y (ap (λ o. some (or_else o (or_else (template v) ""))) (kept_code s v ∙ h v))
    | inr f ↦ rw f (kept_code s l ∙ h l)
  ],
)

fire-Shows : (s : Desk) (b : Board) → Shows s b → Shows (fire s) b
unfolding fire
fire-Shows s b h = elim (Option-cases s.timer) [
  | inl n ↦ rw (n, fire) h
  | inr (d, q) ↦ rw (q, fire) h
]

step-Shows :
    (preferred : String) (s : Desk) (b : Board) (e : Event)
    → s.loaded_draft ≡ true
    → Shows s b
    → Shows (step preferred s e) (expected b e)
unfolding step load
step-Shows preferred s b (loaded drafts) t h = rw t h
step-Shows preferred s b (typed next at) t h = on_change-Shows next at s b h
step-Shows preferred s b (switched v) t h = switch-Shows v s b h
step-Shows preferred s b (reset at) t (e, h) =
    subst
      (λ n.
        Shows (on_change (or_else (template s.language) "") at s)
          (write (or_else (template n) "") b))
      e (on_change-Shows (or_else (template s.language) "") at s b (e, h))
step-Shows preferred s b elapsed t h = fire-Shows s b h
step-Shows preferred s b accepted t h = h
step-Shows preferred s b rejected t h = h

fire-loaded : (s : Desk) → (fire s).loaded_draft ≡ s.loaded_draft
unfolding fire
fire-loaded s = elim (Option-cases s.timer) [
  | inl n ↦ rw (n, fire) refl
  | inr (d, q) ↦ rw (q, fire) refl
]

step-loaded :
    (preferred : String) (s : Desk) (e : Event)
    → s.loaded_draft ≡ true
    → (step preferred s e).loaded_draft ≡ true
unfolding step load on_change switch
step-loaded preferred s (loaded drafts) t = rw t refl
step-loaded preferred s (typed next at) t = t
step-loaded preferred s (switched v) t = t
step-loaded preferred s (reset at) t = t
step-loaded preferred s elapsed t = fire-loaded s ∙ t
step-loaded preferred s accepted t = t
step-loaded preferred s rejected t = t

steps-Shows :
    (preferred : String) (s : Desk) (b : Board) (l : List Event)
    → s.loaded_draft ≡ true
    → Shows s b
    → Shows (steps preferred s l) (expected_after b l)
unfolding steps
steps-Shows preferred s b [] t h = h
steps-Shows preferred s b (e ∷ rest) t h =
    steps-Shows preferred (step preferred s e) (expected b e) rest (step-loaded preferred s e t)
      (step-Shows preferred s b e t h)

-- Once the drafts have been read, whatever is typed, reset, switched, sent or answered, the editor is the
-- map from languages to texts that it promises to be: typing and resetting write the open language's text
-- only, and a language that is opened again shows the text it was left with.
pub steps-kept :
    (preferred : String) (s : Desk) (l : List Event)
    → s.loaded_draft ≡ true
    → Shows
        (steps preferred s l)
        (expected_after (record { language = s.language; text = code_of s }) l)
steps-kept preferred s l t =
    steps-Shows preferred s (record { language = s.language; text = code_of s }) l t
      (refl, λ k. refl)

-- Where another language is chosen before the timer runs out, the text that was typed is sent after the
-- one that was switched to, so that the server's newest draft is in the language that was left; and where
-- something is typed in that other language too before the timer runs out, what was typed in the first
-- is not among what is sent.
pub left_language_lem :
    (preferred : String) (s : Desk) (first second v : String) (at later : ℕ)
    → let t = steps preferred s (typed first at ∷ switched v ∷ elapsed ∷ []) in
      let u = steps preferred s (typed first at ∷ switched v ∷ typed second later ∷ elapsed ∷ []) in
      (t.language ≡ v)
      × (t.sent ≡ (s.sent ++ (v, t.source) ∷ []) ++ (s.language, first) ∷ [])
      × (u.sent ≡ (s.sent ++ (v, t.source) ∷ []) ++ (v, second) ∷ [])
unfolding steps step on_change switch fire
left_language_lem preferred s first second v at later = (refl, refl, refl)

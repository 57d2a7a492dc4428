-- ===== src/Site/Back.antt =====
-- came-from.ts: the back link never leaves the organisers' pages.
use codolympics.Prelude.{
  ℕ, ◌≡◌, refl, sym, ap, ◌∙◌, true, false, String, List, [], ◌∷◌, ◌++◌, Option, none, some, arith,
  ◌==◌, Option-cases, Bool-cases, inl, inr, ◌⊎◌, All, subst,
}
use mathlib.Core.List.{append_assoc}
use mathlib.Core.Bool.{false≢true}
use codolympics.Site.CameFrom.{
  codes, Place, Part, word, after_word, after_part, matches, places, path_of, find_place, place_of,
  came_from,
}

-- An address begins with a text.
abbrev pub Begins : List ℕ → List ℕ → Type 0
Begins w s = (t : List ℕ) × (s ≡ w ++ t)

after_word-eq-some : (w s t : List ℕ) → after_word w s ≡ some t → s ≡ w ++ t
unfolding after_word
after_word-eq-some [] s t h = ground arith
after_word-eq-some (c ∷ w) [] t h = cc
after_word-eq-some (c ∷ w) (d ∷ s) t h = ground (arith, after_word-eq-some w s t)

matches-word_none :
    (w : List ℕ) (rest : List Part) (s : List ℕ)
    → after_word w s ≡ none
    → matches (word w ∷ rest) s ≡ false
unfolding matches after_part
matches-word_none w rest s e = rw (e, matches)

-- A pattern that begins with a literal text matches only addresses that begin with it.
matches-Begins :
    (w : List ℕ) (rest : List Part) (s : List ℕ) → matches (word w ∷ rest) s ≡ true → Begins w s
unfolding matches after_part
matches-Begins w rest s h = elim (Option-cases (after_word w s)) [
  | inl e ↦ absurd (false≢true (sym (matches-word_none w rest s e) ∙ h))
  | inr (t, e) ↦ (t, after_word-eq-some w s t e)
]

path_of-append : (s : List ℕ) → (q : List ℕ) × (s ≡ path_of s ++ q)
unfolding path_of
path_of-append [] = ([], refl)
path_of-append (c ∷ s) = elim (Bool-cases (c == b'?')) [
  | inl e ↦ (c ∷ s, rw e)
  | inr e ↦ let (q, p) = path_of-append s in (q, rw e (ap (λ t. c ∷ t) p))
]

path_of-Begins : (w s : List ℕ) → Begins w (path_of s) → Begins w s
path_of-Begins w s (t, e) =
    let (q, p) = path_of-append s in (t ++ q, p ∙ ap (λ x. x ++ q) e ∙ append_assoc w t q)

Begins-trans : (v w s : List ℕ) → Begins v w → Begins w s → Begins v s
Begins-trans v w s (t, e) (u, f) = (t ++ u, f ∙ ap (λ x. x ++ u) e ∙ append_assoc v t u)

-- The addresses of the organisers' own pages.
abbrev pub IsOwn : List ℕ → Type 0
IsOwn s = Begins (codes "/admin/") s ⊎ Begins (codes "/grade/hacks") s

abbrev Rooted : List Part × String → Type 0
Rooted p = (w : List ℕ) × (rest : List Part) × (p.0 ≡ word w ∷ rest) × IsOwn w

IsOwn-trans : (w s : List ℕ) → IsOwn w → Begins w s → IsOwn s
IsOwn-trans w s (inl a) b = inl (Begins-trans (codes "/admin/") w s a b)
IsOwn-trans w s (inr a) b = inr (Begins-trans (codes "/grade/hacks") w s a b)

IsOwn-path : (s : List ℕ) → IsOwn (path_of s) → IsOwn s
IsOwn-path s (inl a) = inl (path_of-Begins (codes "/admin/") s a)
IsOwn-path s (inr a) = inr (path_of-Begins (codes "/grade/hacks") s a)

find_place-IsOwn :
    (l : List (List Part × String)) (path : List ℕ) (label : String)
    → All Rooted l
    → find_place l path ≡ some label
    → IsOwn path
unfolding find_place
find_place-IsOwn [] path label a h = cc
find_place-IsOwn ((re, x) ∷ rest) path label ((w, ps, e, own), a) h =
    elim (Bool-cases (matches re path)) [
      | inl m ↦
          IsOwn-trans w path own (matches-Begins w ps path (subst (λ r. matches r path ≡ true) e m))
      | inr m ↦ find_place-IsOwn rest path label a (rw m at h)
    ]

places-Rooted : All Rooted places
places-Rooted = (
  (codes "/admin/judge", [], refl, inl (codes "judge", refl)),
  (
    (codes "/admin/submissions", [], refl, inl (codes "submissions", refl)),
    (
      (codes "/grade/hacks", [], refl, inr ([], refl)),
      (
        (codes "/admin/participants/", _, refl, inl (codes "participants/", refl)),
        (
          (codes "/admin/participants/", _, refl, inl (codes "participants/", refl)),
          ((codes "/admin/participants", [], refl, inl (codes "participants", refl)), tt),
        ),
      ),
    ),
  ),
)

-- The back link is the page's natural parent, or the address that the link carried, and then that
-- address is one of the organisers' own pages: it begins with "/admin/" or with "/grade/hacks", so a
-- pasted link cannot send the reader off the site.
pub came_from-IsOwn :
    (from : Option (List ℕ)) (fallback : Place)
    → (came_from from fallback ≡ fallback)
      ⊎ ((h : List ℕ) × (from ≡ some h) × ((came_from from fallback).href ≡ h) × IsOwn h)
unfolding came_from place_of
came_from-IsOwn none fallback = inl refl
came_from-IsOwn (some []) fallback = inl refl
came_from-IsOwn (some (c ∷ s)) fallback =
    elim (Option-cases (find_place places (path_of (c ∷ s)))) [
      | inl e ↦ inl (rw (e, came_from, place_of))
      | inr (label, e) ↦ inr (
        c ∷ s,
        refl,
        rw (e, came_from, place_of),
        IsOwn-path (c ∷ s) (find_place-IsOwn places (path_of (c ∷ s)) label places-Rooted e),
      )
    ]

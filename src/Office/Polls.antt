-- ===== src/Office/Polls.antt =====
-- judge/page.tsx: the feed is asked for one request at a time, and its two lists share out the work.
use mathlib.Core.List.{Perm, perm_middle}
use mathlib.Core.List.Perm
use codolympics.Prelude.{
  ℕ, ◌+◌, ◌≤◌, ◌≡◌, refl, Bool, true, false, not, ◌&&◌, List, [], ◌∷◌, ◌++◌, Option, none, some,
  if◌then◌else◌, ltb, keep, if_ind, arith,
}
use codolympics.Office.Feed.{
  Work, Feed, Page, load, settle, live_of, differs, without_judge, Event, ticked, pressed, answered,
  failed, step, steps, running, finished,
}

abbrev pub out : Option Bool → ℕ
out none = 0
out (some m) = 1

abbrev one_if_end : Event → ℕ
one_if_end (ticked h) = 0
one_if_end pressed = 0
one_if_end (answered f) = 1
one_if_end failed = 1

abbrev pub ends : List Event → ℕ
ends [] = 0
ends (e ∷ es) = one_if_end e + ends es

-- From `p` to `q` with at most `n` requests ended.
abbrev Counts : ℕ → Page → Page → Type 0
Counts n p q = q.asked + out p.in_flight ≤ p.asked + n + out q.in_flight

load-Counts : (n : ℕ) (manual : Bool) (p q : Page) → Counts n p q → Counts n p (load manual q)
unfolding load
load-Counts n manual p q h = ground arith

settle-Counts : (f : Option Feed) (p : Page) → Counts 1 p (settle f p)
unfolding settle
settle-Counts f p = ground arith

step-Counts : (p : Page) (e : Event) → Counts (one_if_end e) p (step p e)
unfolding step
step-Counts p (ticked true) = omega arith
step-Counts p (ticked false) = load-Counts 0 false p p (omega arith)
step-Counts p pressed = load-Counts 0 true p p (omega arith)
step-Counts p (answered f) =
    if_ind (Counts 1 p)
      (differs (ltb 0 (live_of p.feed)) (ltb 0 (live_of (settle (some f) p).feed))) _ _
      (λ _. load-Counts 1 false p (settle (some f) p) (settle-Counts (some f) p))
      (λ _. settle-Counts (some f) p)
step-Counts p failed = settle-Counts (without_judge p.feed) p

steps-Counts : (p : Page) (es : List Event) → Counts (ends es) p (steps p es)
unfolding steps
steps-Counts p [] = omega arith
steps-Counts p (e ∷ es) = omega (arith, step-Counts p e, steps-Counts (step p e) es)

out-le : (o : Option Bool) → out o ≤ 1
out-le none = omega arith
out-le (some m) = omega arith

-- From a page with no request out, whatever ticks, whatever is pressed and however the answers come, at
-- most one more request has been sent than have ended.
pub asked-le :
    (p : Page) (es : List Event) → p.in_flight ≡ none → (steps p es).asked ≤ p.asked + ends es + 1
asked-le p es h =
    let k : out p.in_flight ≡ 0 = rw h refl in
    omega (arith, steps-Counts p es, out-le (steps p es).in_flight)

-- The button spins exactly while a request that it started is out.
abbrev pub Spins : Page → Type 0
Spins p = p.busy ≡ (elim p.in_flight [ none ↦ false | some m ↦ m ])

load-Spins : (manual : Bool) (p : Page) → Spins p → Spins (load manual p)
unfolding load
load-Spins manual p h = ground arith

settle-Spins : (f : Option Feed) (p : Page) → Spins p → Spins (settle f p)
unfolding settle
settle-Spins f p h = ground arith

step-Spins : (p : Page) (e : Event) → Spins p → Spins (step p e)
unfolding step
step-Spins p (ticked true) h = h
step-Spins p (ticked false) h = load-Spins false p h
step-Spins p pressed h = load-Spins true p h
step-Spins p (answered f) h =
    let q = settle (some f) p in
    if_ind Spins (differs (ltb 0 (live_of p.feed)) (ltb 0 (live_of q.feed))) _ _
      (λ _. load-Spins false q (settle-Spins (some f) p h)) (λ _. settle-Spins (some f) p h)
step-Spins p failed h = settle-Spins (without_judge p.feed) p h

-- However ticks, presses and answers come, the button spins exactly while a request that a press sent is
-- out, provided that it did at first: a press while another request is out does not spin it.
pub steps-Spins : (p : Page) (es : List Event) → Spins p → Spins (steps p es)
unfolding steps
steps-Spins p [] h = h
steps-Spins p (e ∷ es) h = steps-Spins (step p e) es (step-Spins p e h)

dealt :
    {A : Type 0} (first kept : Bool) (a : A) (l k m : List A)
    → Perm (l ++ k) m
    → Perm
        ((if first && kept then a ∷ l else l) ++ (if not first && kept then a ∷ k else k))
        (if kept then a ∷ m else m)
dealt true true a l k m h = Perm.cons a h
dealt false true a l k m h = Perm.trans (perm_middle l k) (Perm.cons a h)
dealt true false a l k m h = h
dealt false false a l k m h = h

-- Each thing that passes the filter is in one of the two lists, once.
pub lists-Perm :
    (found : Work → Bool) (all : List Work)
    → Perm (running found all ++ finished found all) (keep found all)
unfolding running finished
lists-Perm found [] = Perm.refl []
lists-Perm found (w ∷ rest) =
    dealt w.live (found w) w (running found rest) (finished found rest) (keep found rest)
      (lists-Perm found rest)

-- ===== src/Office/Listed.antt =====
-- readiness/page.tsx: every check is listed.
use mathlib.Core.List.{append_assoc, append-nil}
use codolympics.Prelude.{
  ◌≡◌, refl, sym, ap, ◌∙◌, subst, Bool, true, false, not, ◌↔◌, ◌⊎◌, inl, inr, String, List, [], ◌∷◌,
  ◌++◌, Option, none, some, if◌then◌else◌, In, In-keep, keep-In, In-append_left, In-append_right,
  In-append_case, find, keep, includes, str_eq, str_eq_true, str_eq_refl, Bool-cases,
}
use codolympics.Prelude.Lists.{here, there}
use codolympics.Office.Checklist.{
  Item, Group, Shown, all_keys, is_placed, with_key, found, filled, others, is_full, other_group,
  prepend, shown,
}

-- The checks of all groups that are shown, in their order.
abbrev pub flat : List Shown → List Item
flat [] = []
flat (g ∷ rest) = g.items ++ flat rest

flat-append : (l k : List Shown) → flat (l ++ k) ≡ flat l ++ flat k
flat-append [] k = refl
flat-append (g ∷ l) k =
    ap (λ m. g.items ++ m) (flat-append l k) ∙ sym (append_assoc g.items (flat l) (flat k))

full_case :
    (g : Shown) (items : List Item) (l k : List Shown)
    → g.items ≡ items
    → flat l ≡ flat k
    → flat (if is_full items then g ∷ l else l) ≡ items ++ flat k
full_case g [] l k e h = h
full_case g (i ∷ rest) l k e h = ap (λ m. g.items ++ m) h ∙ ap (λ m. m ++ flat k) e

flat-keep : (l : List Shown) → flat (keep (λ (g : Shown). is_full g.items) l) ≡ flat l
flat-keep [] = refl
flat-keep (g ∷ l) =
    full_case g g.items (keep (λ (g : Shown). is_full g.items) l) l refl (flat-keep l)

flat-other : (l : List Item) → flat (other_group l) ≡ l
flat-other [] = refl
flat-other (i ∷ l) = append-nil (i ∷ l)

prepend-append : {A : Type 0} (o : Option A) (l k : List A) → prepend o (l ++ k) ≡ prepend o l ++ k
prepend-append none l k = refl
prepend-append (some a) l k = refl

In-prepend_case :
    {A : Type 0} (a : A) (o : Option A) (l : List A) → In a (prepend o l) → (o ≡ some a) ⊎ In a l
In-prepend_case a none l m = inr m
In-prepend_case a (some b) l (here e) = inl (ap some e)
In-prepend_case a (some b) l (there m) = inr m

In-prepend : {A : Type 0} (a : A) (o : Option A) (l : List A) → In a l → In a (prepend o l)
In-prepend a none l m = m
In-prepend a (some b) l m = there m

found-append :
    (k l : List String) (items : List Item) → found (k ++ l) items ≡ found k items ++ found l items
unfolding found
found-append [] l items = refl
found-append (x ∷ k) l items =
    ap (prepend (with_key x items)) (found-append k l items)
    ∙ prepend-append (with_key x items) (found k items) (found l items)

flat-filled :
    (gs : List Group) (items : List Item) → flat (filled gs items) ≡ found (all_keys gs) items
unfolding filled all_keys found
flat-filled [] items = refl
flat-filled (g ∷ gs) items =
    ap (λ m. found g.keys items ++ m) (flat-filled gs items)
    ∙ sym (found-append g.keys (all_keys gs) items)

flat-shown :
    (gs : List Group) (items : List Item)
    → flat (shown gs items) ≡ found (all_keys gs) items ++ others gs items
unfolding shown
flat-shown gs items =
    flat-keep (filled gs items ++ other_group (others gs items))
    ∙ flat-append (filled gs items) (other_group (others gs items))
    ∙ ap (λ m. m ++ flat (other_group (others gs items))) (flat-filled gs items)
    ∙ ap (λ m. found (all_keys gs) items ++ m) (flat-other (others gs items))

find-In : {A : Type 0} (p : A → Bool) (l : List A) (a : A) → find p l ≡ some a → In a l
find-In p [] a e = absurd cc
find-In p (x ∷ l) a e = elim (Bool-cases (p x)) [
  | inl t ↦ let k : some x ≡ some a = rw t at e in here (cc)
  | inr f ↦ let k : find p l ≡ some a = rw f at e in there (find-In p l a k)
]

find-some :
    {A : Type 0} (p : A → Bool) (l : List A) (a : A)
    → In a l
    → p a ≡ true
    → (b : A) × (find p l ≡ some b) × In b l × (p b ≡ true)
find-some p [] a m h = elim m [ ]
find-some p (x ∷ l) a (here e) h =
    let t : p x ≡ true = subst (λ y. p y ≡ true) (sym e) h in (x, rw t refl, here refl, t)
find-some p (x ∷ l) a (there m) h = elim (Bool-cases (p x)) [
  | inl t ↦ (x, rw t refl, here refl, t)
  | inr f ↦ let (b, e, n, q) = find-some p l a m h in (b, rw f e, there n, q)
]

-- No two checks have the same key.
abbrev pub HasOneEach : List Item → Type 0
HasOneEach items = (i j : Item) → In i items → In j items → str_eq i.key j.key ≡ true → i ≡ j

found-In : (ks : List String) (items : List Item) (i : Item) → In i (found ks items) → In i items
unfolding found with_key
found-In [] items i m = elim m [ ]
found-In (k ∷ ks) items i m = elim (In-prepend_case i (with_key k items) (found ks items) m) [
  | inl e ↦ find-In (λ (j : Item). str_eq j.key k) items i e
  | inr r ↦ found-In ks items i r
]

In-found :
    (ks : List String) (items : List Item) (i : Item)
    → HasOneEach items
    → In i items
    → includes ks i.key ≡ true
    → In i (found ks items)
unfolding found with_key
In-found [] items i u m h = absurd cc
In-found (k ∷ ks) items i u m h = elim (Bool-cases (str_eq k i.key)) [
  | inl t ↦
      let e : i.key ≡ k = sym (str_eq_true k i.key t) in
      let (j, f, n, q) =
        find-some (λ (x : Item). str_eq x.key k) items i m
          (subst (λ x. str_eq x k ≡ true) (sym e) (str_eq_refl k)) in
      let same : i ≡ j = u i j m n (
        subst (λ x. str_eq i.key x ≡ true) (e ∙ sym (str_eq_true j.key k q)) (str_eq_refl i.key)) in
      subst (λ (o : Option Item). In i (prepend o (found ks items))) (sym f) (here (sym same))
  | inr f ↦ In-prepend i (with_key k items) (found ks items) (In-found ks items i u m (rw f at h))
]

others-In : (gs : List Group) (items : List Item) (i : Item) → In i (others gs items) → In i items
unfolding others
others-In gs items i m = (keep-In (λ (x : Item). not (is_placed gs x)) i items m).0

In-others :
    (gs : List Group) (items : List Item) (i : Item)
    → In i items
    → is_placed gs i ≡ false
    → In i (others gs items)
unfolding others
In-others gs items i m f = In-keep (λ (x : Item). not (is_placed gs x)) i items m (ap not f)

placed-In :
    (gs : List Group) (items : List Item) (i : Item)
    → HasOneEach items
    → In i items
    → is_placed gs i ≡ true
    → In i (found (all_keys gs) items)
unfolding is_placed
placed-In gs items i u m t = In-found (all_keys gs) items i u m t

-- Where no two checks have the same key, the groups show exactly the checks that the server has, those
-- with a key that no group names among them.
pub listed_iff :
    (gs : List Group) (items : List Item) (i : Item)
    → HasOneEach items
    → In i (flat (shown gs items)) ↔ In i items
listed_iff gs items i u =
    subst (λ (l : List Item). In i l ↔ In i items) (sym (flat-shown gs items))
      (
        (λ m. elim (In-append_case i (found (all_keys gs) items) (others gs items) m) [
          | inl f ↦ found-In (all_keys gs) items i f
          | inr o ↦ others-In gs items i o
        ]),
        (λ m. elim (Bool-cases (is_placed gs i)) [
          | inl t ↦ In-append_left i _ (others gs items) (placed-In gs items i u m t)
          | inr f ↦ In-append_right i (found (all_keys gs) items) _ (In-others gs items i m f)
        ]),
      )

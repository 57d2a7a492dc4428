-- ===== src/Package/Paths.antt =====
-- package-inspect.ts: every file is found again under the name that it has without the stripped folder.
use codolympics.Prelude.{
  ◌≡◌, refl, sym, ap, ◌∙◌, subst, Bool, true, false, ◌&&◌, String, List, [], ◌∷◌, map, none, some,
  if◌then◌else◌, ◌==◌, length, any, every, In, All, str_eq, str_eq_true, str_eq_refl, Option-cases,
  Bool-cases, inl, inr, arith,
}
use codolympics.Prelude.Lists.{here, there}
use codolympics.Authoring.Platform.{set_of}
use codolympics.Rounds.Targets.{find-In, find_finds}
use codolympics.Package.Inspect.{Name, top, same_name, has_folder, strip_of, rel, get_name}

same_name_refl : (n : Name) → same_name n n ≡ true
unfolding same_name
same_name_refl [] = refl
same_name_refl (p ∷ n) = ground (arith, str_eq_refl p, same_name_refl n)

both : (a b : Bool) → (a && b) ≡ true → (a ≡ true) × (b ≡ true)
both a b h = ground arith

pub same_name-eq : (m n : Name) → same_name m n ≡ true → m ≡ n
unfolding same_name
same_name-eq [] [] h = refl
same_name-eq [] (q ∷ n) h = absurd cc
same_name-eq (p ∷ m) [] h = absurd cc
same_name-eq (p ∷ m) (q ∷ n) h =
    let (s, t) = both (str_eq p q) (same_name m n) h in
    λ i. str_eq_true p q s i ∷ same_name-eq m n t i

set_of-nil : (xs : List String) → (length (set_of str_eq xs) == 0) ≡ true → xs ≡ []
unfolding set_of
set_of-nil [] h = refl
set_of-nil (x ∷ xs) h = elim (Bool-cases (any (λ y. str_eq x y) xs)) [
  | inl t ↦
      let e = set_of-nil xs (
        subst (λ b. ((length (if b then set_of str_eq xs else x ∷ set_of str_eq xs)) == 0) ≡ true) t
          h) in
      let f : any (λ y. str_eq x y) xs ≡ false = ap (λ l. any (λ y. str_eq x y) l) e in absurd cc
  | inr f ↦
      let n =
        subst (λ b. ((length (if b then set_of str_eq xs else x ∷ set_of str_eq xs)) == 0) ≡ true) f
          h in
      absurd (ground (arith, n))
]

any_top :
    (x y : String) (ys : List String)
    → All (λ z. z ≡ y) ys
    → any (λ z. str_eq x z) (y ∷ ys) ≡ true
    → x ≡ y
any_top x y [] h t = str_eq_true x y (ground (arith, t))
any_top x y (z ∷ ys) (e, h) t = elim (Bool-cases (str_eq x y)) [
  | inl s ↦ str_eq_true x y s
  | inr f ↦
      any_top x y ys h (subst (λ w. any (λ v. str_eq x v) (y ∷ ys) ≡ true) e (skip x y z ys e f t))
]
  where
    skip :
        (x y z : String) (ys : List String)
        → z ≡ y
        → str_eq x y ≡ false
        → any (λ v. str_eq x v) (y ∷ z ∷ ys) ≡ true
        → any (λ v. str_eq x v) (y ∷ ys) ≡ true
    skip x y z ys e f t =
        let g : str_eq x z ≡ false = subst (λ v. str_eq x v ≡ false) (sym e) f in ground arith

-- A set of one member: all are that one.
one_top :
    (x : String) (xs : List String)
    → (length (set_of str_eq (x ∷ xs)) == 1) ≡ true
    → All (λ y. y ≡ x) xs
unfolding set_of
one_top x [] h = tt
one_top x (y ∷ ys) h = elim (Bool-cases (any (λ z. str_eq x z) (y ∷ ys))) [
  | inl t ↦
      let k = one_top y ys (
        subst
          (λ b.
            ((length (if b then set_of str_eq (y ∷ ys) else x ∷ set_of str_eq (y ∷ ys))) == 1)
            ≡ true)
          t h) in
      let e : x ≡ y = any_top x y ys k t in (sym e, subst (λ w. All (λ z. z ≡ w) ys) (sym e) k)
  | inr f ↦
      let n =
        subst
          (λ b.
            ((length (if b then set_of str_eq (y ∷ ys) else x ∷ set_of str_eq (y ∷ ys))) == 1)
            ≡ true)
          f h in
      let e = set_of-nil (y ∷ ys) (ground (arith, n)) in absurd cc
]

-- A name inside a folder.
abbrev IsInside : String → Name → Type 0
IsInside t n = (top n ≡ t) × (has_folder n ≡ true)

rel_back : (t : String) (n : Name) → IsInside t n → t ∷ rel (some t) n ≡ n
unfolding rel
rel_back t [] (e, f) = absurd cc
rel_back t (p ∷ []) (e, f) = absurd cc
rel_back t (p ∷ q ∷ rest) (e, f) =
    let s : str_eq p t ≡ true = subst (λ v. str_eq p v ≡ true) e (str_eq_refl p) in
    let z : (length (q ∷ rest) == 0) ≡ false = ground arith in rw s (rw z (λ i. sym e i ∷ q ∷ rest))

All-IsInside :
    (t : String) (raw : List Name)
    → All (λ y. y ≡ t) (map top raw)
    → every has_folder raw ≡ true
    → (n : Name) → In n raw
    → IsInside t n
All-IsInside t [] h f n m = elim m [ ]
All-IsInside t (x ∷ raw) (e, h) f n m =
    let (a, b) = both (has_folder x) (every has_folder raw) f in
    elim m [ here q ↦ subst (IsInside t) q (e, a) | there k ↦ All-IsInside t raw h b n k ]

strip_of-IsInside :
    (raw : List Name) (t : String) → strip_of raw ≡ some t → (n : Name) → In n raw → IsInside t n
unfolding strip_of
strip_of-IsInside [] t e n m = elim m [ ]
strip_of-IsInside (x ∷ raw) t e n m =
    elim (Bool-cases
      (length (set_of str_eq (map top (x ∷ raw))) == 1 && every has_folder (x ∷ raw))) [
        | inl y ↦
            let (o, f) =
              both (length (set_of str_eq (map top (x ∷ raw))) == 1) (every has_folder (x ∷ raw))
                y in
            let q : top x ≡ t = some-top (sym (rw y refl) ∙ e) in
            let k = one_top (top x) (map top raw) o in
            subst (λ v. IsInside v n) q (All-IsInside (top x) (x ∷ raw) (refl, k) f n m)
        | inr g ↦ absurd (no-top (sym (rw g refl) ∙ e))
      ]
  where
    some-top : {a b : String} → some a ≡ some b → a ≡ b
    some-top e = cc

    no-top : {a : String} → none ≡ some a → ⊥
    no-top e = cc

rel_same :
    (raw : List Name) (m n : Name)
    → In m raw
    → In n raw
    → rel (strip_of raw) m ≡ rel (strip_of raw) n
    → m ≡ n
unfolding rel
rel_same raw m n k l e = elim (Option-cases (strip_of raw)) [
  | inl q ↦ subst (λ s. rel s m ≡ rel s n) q e
  | inr (t, q) ↦
      sym (rel_back t m (strip_of-IsInside raw t q m k))
      ∙ (ap (λ r. t ∷ r) (subst (λ s. rel s m ≡ rel s n) q e)
          ∙ rel_back t n (strip_of-IsInside raw t q n l))
]

-- Every file of the package is the one that is got under the name it is listed by, whether a folder was
-- stripped or not, so that no file hides another.
pub get_name-rel :
    (raw : List Name) (n : Name) → In n raw → get_name raw (rel (strip_of raw) n) ≡ some n
unfolding get_name
get_name-rel raw n m =
    let r = rel (strip_of raw) n in
    let (k, f) = find_finds (λ x. same_name (rel (strip_of raw) x) r) raw n m (same_name_refl r) in
    let (l, t) = find-In (λ x. same_name (rel (strip_of raw) x) r) raw k f in
    f ∙ ap some (rel_same raw k n l m (same_name-eq (rel (strip_of raw) k) r t))

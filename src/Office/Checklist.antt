-- ===== src/Office/Checklist.antt =====
-- web/src/app/(app)/admin/readiness/page.tsx: the checks before a contest, in their groups.
use codolympics.Prelude.{
  ℕ, ◌-◌, Bool, true, false, not, String, List, [], ◌∷◌, ◌++◌, Option, none, some, if◌then◌else◌,
  ◌==◌, length, keep, find, includes, str_eq,
}

pub record Item : Type 0 where
  pub key : String
  pub label : String
  pub ok : Bool
  pub detail : String
  pub href : String

pub record Readiness : Type 0 where
  pub items : List Item
  pub done : ℕ
  pub total : ℕ

pub record Group : Type 0 where
  pub title : String
  pub keys : List String

-- `GROUPS`.
abbrev pub groups : List Group
groups =
    record {
      title = "The judge and its problems";
      keys = "judge" ∷ "problems" ∷ "details" ∷ "validated" ∷ [];
    }
    ∷ record { title = "Phase 1"; keys = "phase1" ∷ "basis" ∷ [] }
    ∷ record { title = "People"; keys = "evaluators" ∷ "participants" ∷ "registration" ∷ [] }
    ∷ []

-- A group as it is shown.
pub record Shown : Type 0 where
  pub title : String
  pub items : List Item

unfoldable pub all_keys : List Group → List String
all_keys [] = []
all_keys (g ∷ rest) = g.keys ++ all_keys rest

-- `placed.has(i.key)`.
unfoldable pub is_placed : List Group → Item → Bool
unfolding all_keys
is_placed gs i = includes (all_keys gs) i.key

unfoldable pub with_key : String → List Item → Option Item
with_key k items = find (λ (i : Item). str_eq i.key k) items

abbrev pub prepend : {A : Type 0} → Option A → List A → List A
prepend none l = l
prepend (some a) l = a ∷ l

-- `keys.map((k) => items.find(...)).filter(Boolean)`.
unfoldable pub found : List String → List Item → List Item
unfolding with_key
found [] items = []
found (k ∷ ks) items = prepend (with_key k items) (found ks items)

unfoldable pub filled : List Group → List Item → List Shown
unfolding found
filled [] items = []
filled (g ∷ rest) items = record { title = g.title; items = found g.keys items } ∷ filled rest items

unfoldable pub others : List Group → List Item → List Item
unfolding is_placed
others gs items = keep (λ (i : Item). not (is_placed gs i)) items

abbrev pub is_full : {A : Type 0} → List A → Bool
is_full [] = false
is_full (x ∷ rest) = true

abbrev pub other_group : List Item → List Shown
other_group l = if is_full l then record { title = "Other"; items = l } ∷ [] else []

-- The groups that are shown.
unfoldable pub shown : List Group → List Item → List Shown
unfolding filled others
shown gs items =
    keep (λ (g : Shown). is_full g.items) (filled gs items ++ other_group (others gs items))

-- `ready.total - ready.done`, and whether every check passes.
unfoldable outstanding : Option Readiness → ℕ
outstanding none = 0
outstanding (some r) = r.total - r.done

unfoldable all_clear : Option Readiness → Bool
unfolding outstanding
all_clear none = false
all_clear (some r) = outstanding (some r) == 0

-- What is left of a group.
unfoldable left : Shown → ℕ
left g = length (keep (λ (i : Item). not i.ok) g.items)
